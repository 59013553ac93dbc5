-- ===== src/Middleware/RateLimit/Promise.antt =====
-- Runs of requests against the limiter in memory, from its start.
use kakao_relay.Prelude.{
  ℕ, ◌+◌, ◌≤◌, Str, str_eq, str_eq_iff, select, Bool-cases, inl, inr, All, ◌&&◌, Bool, true, false,
  List, [], ◌∷◌, ◌++◌, length, ◌≡◌, refl, sym, ap, ap₂, ◌∙◌, arith, if◌then◌else◌,
}
use mathlib.Core.List.{append-nil, append_assoc}
use kakao_relay.Middleware.Window.{live, admits, admit}
use kakao_relay.Middleware.Window.Laws.{admit-le, length-live_mono}
use kakao_relay.Middleware.RateLimit.{RateLimiter, max_entries, window_duration, check, entry_of}
use kakao_relay.Middleware.RateLimit.Refinement.{
  Logs, update_log, Tracks, check-allows, check-Tracks, length-check,
}

-- A request of an account at a time, with the account's limit.
pub record Request : Type 0 where
  pub account : Str
  pub limit : ℕ
  pub at : ℕ

-- The answers of the limiter.
pub run_checks : List Request → RateLimiter → List Bool
run_checks [] rl = []
run_checks (r ∷ rs) rl =
    let (v, rl') = check r.account r.limit r.at rl in v.allowed ∷ run_checks rs rl'

-- The answers of the specification, which forgets nothing.
pub run_spec : List Request → Logs → List Bool
run_spec [] logs = []
run_spec (r ∷ rs) logs =
    admits window_duration r.limit r.at (logs r.account)
    ∷ run_spec rs (update_log logs r.account (admit window_duration r.limit r.at (logs r.account)))

-- The clock does not go back.
abbrev pub Ordered : ℕ → List Request → Type 0
Ordered now [] = Unit
Ordered now (r ∷ rs) = (now ≤ r.at) × Ordered r.at rs

run-Tracks :
    (rs : List Request) (rl : RateLimiter) (now : ℕ) (logs : Logs)
    → length rl.store + length rs ≤ max_entries
    → Ordered now rs
    → Tracks rl now logs
    → run_checks rs rl ≡ run_spec rs logs
unfolding run_checks run_spec
run-Tracks [] rl now logs small o tr = refl
run-Tracks (r ∷ rs) rl now logs small (on, o) tr =
    let small' : length rl.store ≤ max_entries = omega arith in
    let grown = length-check rl now r.at r.limit r.account logs small' on tr in
    ap₂ (λ b bs. b ∷ bs) (check-allows rl now r.at r.limit r.account logs small' on tr)
      (run-Tracks rs (check r.account r.limit r.at rl).1 r.at _ (omega arith) o
        (check-Tracks rl now r.at r.limit r.account logs small' on tr))

abbrev pub new_limiter : ℕ → RateLimiter
new_limiter now = record { store = []; last_cleanup = now }

abbrev pub no_logs : Logs
no_logs _ = []

new-Tracks : (now : ℕ) → Tracks (new_limiter now) now no_logs
unfolding entry_of
new-Tracks now = record { unique = tt; recent = λ id. tt; agrees = λ id t h. refl }

-- From its start the limiter answers a run of at most 10,000 requests at times that do not go
-- back as the sliding window over all earlier admissions of the account does.
pub run_checks-eq-spec :
    (now : ℕ) (rs : List Request)
    → length rs ≤ max_entries
    → Ordered now rs
    → run_checks rs (new_limiter now) ≡ run_spec rs no_logs
run_checks-eq-spec now rs small o =
    run-Tracks rs (new_limiter now) now no_logs (omega arith) o (new-Tracks now)

-- The times at which an account was admitted, by the answers of a run.
abbrev pub admitted : Str → List Request → List Bool → List ℕ
admitted id [] answers = []
admitted id (r ∷ rs) [] = []
admitted id (r ∷ rs) (a ∷ answers) =
    if str_eq r.account id && a then r.at ∷ admitted id rs answers else admitted id rs answers

abbrev logged : Request → Logs → Logs
logged r logs = update_log logs r.account (admit window_duration r.limit r.at (logs r.account))

-- The log that a run of the specification leaves.
logs_after : List Request → Logs → Logs
logs_after [] logs = logs
logs_after (r ∷ rs) logs = logs_after rs (logged r logs)

append_one :
    (xs ys rest : List ℕ) (at : ℕ) (b : Bool)
    → xs ≡ ys
    → (if b then xs ++ at ∷ [] else xs) ++ rest ≡ ys ++ (if b then at ∷ rest else rest)
append_one xs ys rest at true e = rw e (append_assoc ys (at ∷ []) rest)
append_one xs ys rest at false e = rw e

logs_after-eq-append :
    (id : Str) (rs : List Request) (logs : Logs)
    → logs_after rs logs id ≡ logs id ++ admitted id rs (run_spec rs logs)
unfolding logs_after run_spec admit
logs_after-eq-append id [] logs = sym (append-nil (logs id))
logs_after-eq-append id (r ∷ rs) logs =
    logs_after-eq-append id rs (logged r logs) ∙ one (admitted id rs (run_spec rs (logged r logs)))
  where
    one :
        (rest : List ℕ)
        → logged r logs id ++ rest
          ≡ logs id
            ++ (if str_eq r.account id && admits window_duration r.limit r.at (logs r.account)
                then r.at ∷ rest
                else rest)
    one rest = elim (Bool-cases (str_eq r.account id)) [
      | inl same ↦ rw same (
          append_one (logs r.account) (logs id) rest r.at
            (admits window_duration r.limit r.at (logs r.account))
            (ap logs ((str_eq_iff r.account id).0 same)))
      | inr other ↦ rw other
    ]

-- The requests of an account have limits of at most `bound`.
abbrev pub LimitedBy : ℕ → Str → List Request → Type 0
LimitedBy bound id rs = All (λ r. str_eq r.account id ≡ true → r.limit ≤ bound) rs

logs_after-le :
    (bound now t : ℕ) (id : Str) (rs : List Request) (logs : Logs)
    → Ordered now rs
    → All (λ r. r.at ≤ t) rs
    → now ≤ t
    → LimitedBy bound id rs
    → length (live window_duration now (logs id)) ≤ bound
    → length (live window_duration t (logs_after rs logs id)) ≤ bound
unfolding logs_after
logs_after-le bound now t id [] logs o past on lim within =
    omega (arith, length-live_mono window_duration now t (logs id) on)
logs_after-le bound now t id (r ∷ rs) logs (next, o) (p, past) on (l, lim) within =
    logs_after-le bound r.at t id rs (logged r logs) o past p lim step
  where
    step : length (live window_duration r.at (logged r logs id)) ≤ bound
    step = elim (Bool-cases (str_eq r.account id)) [
      | inl same ↦
          rw (same, (str_eq_iff r.account id).0 same)
            (admit-le window_duration r.limit bound r.at r.at (logs id) (omega arith) (l same)
              (omega (arith, length-live_mono window_duration now r.at (logs id) next)))
      | inr other ↦
          rw other (omega (arith, length-live_mono window_duration now r.at (logs id) next))
    ]

-- From the limiter's start, whatever the requests of at most 10,000 in the order of time: when
-- the limits of an account's requests are at most `bound`, no more than `bound` of its requests
-- were admitted within the minute before any time at or after the last request.
pub admitted-le :
    (now bound t : ℕ) (id : Str) (rs : List Request)
    → length rs ≤ max_entries
    → Ordered now rs
    → now ≤ t
    → All (λ r. r.at ≤ t) rs
    → LimitedBy bound id rs
    → length (live window_duration t (admitted id rs (run_checks rs (new_limiter now)))) ≤ bound
admitted-le now bound t id rs small o on past lim =
    rw (run_checks-eq-spec now rs small o, ← logs_after-eq-append id rs no_logs)
      (logs_after-le bound now t id rs no_logs o past on lim (none_logged now))
  where
    none_logged : (n : ℕ) → length (live window_duration n []) ≤ bound
    none_logged n = unfold live select in omega arith
