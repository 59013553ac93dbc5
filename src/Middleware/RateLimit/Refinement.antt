-- ===== src/Middleware/RateLimit/Refinement.antt =====
-- The limiter in memory keeps the promise of the sliding window, as long as its store is small
-- enough that no entry in use is evicted.
use kakao_relay.Prelude.{
  ℕ, ◌+◌, ◌-◌, ◌≤◌, Str, str_eq, true, false, Option, none, some, List, [], ◌∷◌, ◌++◌, ltb, leb,
  if◌then◌else◌, length, ◌≡◌, ap, ◌∙◌, arith, All, All-append, All-map, All-select_keep, inl, inr,
  Bool-cases,
}
use kakao_relay.Middleware.Window.{live, is_live, admits, admit}
use kakao_relay.Middleware.Window.Laws.{live-append, live-live}
use kakao_relay.Middleware.RateLimit.{
  RateLimitEntry, RateLimiter, entry_of, cleanup, max_entries, window_duration, entry_ttl,
  timestamps_of, check, decide_window,
}
use kakao_relay.Middleware.RateLimit.Entries.{
  Unique, IsRecent, entry-put, put-Unique, length-put, length-cleanup, cleanup-Unique,
  entry-cleanup, live-unless_idle, unless_idle,
}

-- The admissions of each account, none ever forgotten.
abbrev pub Logs : Type 0
Logs = Str → List ℕ

abbrev pub update_log : Logs → Str → List ℕ → Logs
update_log logs id ts j = if str_eq id j then ts else logs j

-- The limiter stands for the logs at every time from `now` on.
pub record Tracks (rl : RateLimiter) (now : ℕ) (logs : Logs) : Type 0 where
  pub unique : Unique rl.store
  pub recent : (id : Str) → IsRecent now (entry_of id rl.store)
  pub agrees :
      (id : Str) (t : ℕ)
      → now ≤ t
      → live window_duration t (timestamps_of (entry_of id rl.store))
        ≡ live window_duration t (logs id)

IsRecent-later :
    (o : Option RateLimitEntry) (now later : ℕ) → now ≤ later → IsRecent now o → IsRecent later o
IsRecent-later none now later h r = tt
IsRecent-later (some e) now later h (r, s) = (r, omega arith)

IsRecent-unless_idle :
    (now : ℕ) (o : Option RateLimitEntry) → IsRecent now o → IsRecent now (unless_idle now o)
IsRecent-unless_idle now none r = tt
IsRecent-unless_idle now (some e) r = elim (Bool-cases (ltb entry_ttl (now - e.last_access))) [
  | inl idle ↦ rw idle tt
  | inr used ↦ rw used r
]

module _ (rl : RateLimiter) (now later : ℕ) (logs : Logs) (small : length rl.store ≤ max_entries)
    (on : now ≤ later) (tr : Tracks rl now logs) where
  cleanup-Tracks : Tracks (cleanup later rl) later logs
  cleanup-Tracks = record {
    unique = cleanup-Unique later rl small tr.unique;
    recent = λ id. elim (entry-cleanup later rl small id tr.unique) [
      | inl same ↦ rw same (IsRecent-later _ now later on (tr.recent id))
      | inr swept ↦
          rw swept (IsRecent-unless_idle later _ (IsRecent-later _ now later on (tr.recent id)))
    ];
    agrees = λ id t h. elim (entry-cleanup later rl small id tr.unique) [
      | inl same ↦ rw same (tr.agrees id t (omega arith))
      | inr swept ↦ rw swept (
          live-unless_idle later t _ h (IsRecent-later _ now later on (tr.recent id))
          ∙ tr.agrees id t (omega arith))
    ];
  }

decide-allowed :
    (limit now : ℕ) (kept log : List ℕ)
    → kept ≡ live window_duration now log
    → (decide_window limit now kept).0.allowed ≡ admits window_duration limit now log
unfolding decide_window admits
decide-allowed limit now kept log e = rw e (ground arith)

full-refused : (limit n : ℕ) → leb limit n ≡ true → ltb n limit ≡ false
full-refused limit n h = ground arith

room-admitted : (limit n : ℕ) → leb limit n ≡ false → ltb n limit ≡ true
room-admitted limit n h = ground arith

-- What is kept and what is logged look alike from now on.
decide-live :
    (limit now t : ℕ) (log : List ℕ)
    → now ≤ t
    → live window_duration t (decide_window limit now (live window_duration now log)).1
      ≡ live window_duration t (admit window_duration limit now log)
unfolding decide_window admit admits
decide-live limit now t log h =
    let n = length (live window_duration now log) in
    let keeps = live-live window_duration now t log h in
    elim (Bool-cases (leb limit n)) [
      | inl full ↦ rw (full, full-refused limit n full) keeps
      | inr room ↦
          rw (room, room-admitted limit n room, live-append, live-append)
            (ap (λ ts. ts ++ live window_duration t (now ∷ [])) keeps)
    ]

decide-recent :
    (limit now : ℕ) (kept : List ℕ)
    → All (λ t. t ≤ now) kept
    → All (λ t. t ≤ now) (decide_window limit now kept).1
unfolding decide_window
decide-recent limit now kept h = elim (Bool-cases (leb limit (length kept))) [
  | inl full ↦ rw full h
  | inr room ↦ rw room (All-append (λ t. t ≤ now) kept (now ∷ []) h (omega arith, tt))
]

timestamps-recent :
    (now : ℕ) (o : Option RateLimitEntry) → IsRecent now o → All (λ t. t ≤ now) (timestamps_of o)
timestamps-recent now none r = tt
timestamps-recent now (some e) (r, s) =
    All-map (λ t. t ≤ e.last_access) (λ t. t ≤ now) (λ t h. omega arith) e.timestamps r

module _ (rl : RateLimiter) (now later limit : ℕ) (id : Str) (logs : Logs)
    (small : length rl.store ≤ max_entries) (on : now ≤ later) (tr : Tracks rl now logs) where
  abbrev logged : Logs
  logged = update_log logs id (admit window_duration limit later (logs id))

  -- What the new entry holds.
  abbrev kept_now : List ℕ
  kept_now = live window_duration later (timestamps_of (entry_of id (cleanup later rl).store))

  -- The limiter allows a request exactly when the window over all admissions has room.
  pub check-allows :
      (check id limit later rl).0.allowed ≡ admits window_duration limit later (logs id)
  unfolding check
  check-allows =
      let clean = cleanup-Tracks rl now later logs small on tr in
      decide-allowed limit later kept_now (logs id) (clean.agrees id later (omega arith))

  entry-check :
      (j : Str)
      → entry_of j (check id limit later rl).1.store ≡ (
          if str_eq id j
          then some
              (record { timestamps = (decide_window limit later kept_now).1; last_access = later })
          else entry_of j (cleanup later rl).store)
  unfolding check
  entry-check j = entry-put id j _ (cleanup later rl).store

  new-recent : All (λ t. t ≤ later) (decide_window limit later kept_now).1
  unfolding live
  new-recent =
      let clean = cleanup-Tracks rl now later logs small on tr in
      decide-recent limit later kept_now (
        All-select_keep (λ t. t ≤ later) (is_live window_duration later) _
          (timestamps-recent later _ (clean.recent id)))

  new-agrees :
      (t : ℕ)
      → later ≤ t
      → live window_duration t (decide_window limit later kept_now).1
        ≡ live window_duration t (admit window_duration limit later (logs id))
  new-agrees t h =
      let clean = cleanup-Tracks rl now later logs small on tr in
      let same : kept_now ≡ live window_duration later (logs id) =
        clean.agrees id later (omega arith) in
      rw same (decide-live limit later t (logs id) h)

  pub check-Tracks : Tracks (check id limit later rl).1 later logged
  check-Tracks =
      let clean = cleanup-Tracks rl now later logs small on tr in
      record {
        unique = unfold check in put-Unique id _ (cleanup later rl).store clean.unique;
        recent = λ j. elim (Bool-cases (str_eq id j)) [
          | inl same ↦ rw (entry-check j, same) (new-recent, omega arith)
          | inr other ↦ rw (entry-check j, other) (clean.recent j)
        ];
        agrees = λ j t h. elim (Bool-cases (str_eq id j)) [
          | inl same ↦ rw (entry-check j, same) (new-agrees t h)
          | inr other ↦ rw (entry-check j, other) (clean.agrees j t h)
        ];
      }

  pub length-check : length (check id limit later rl).1.store ≤ length rl.store + 1
  unfolding check
  length-check = omega (
    arith,
    length-put id
        (record { timestamps = (decide_window limit later kept_now).1; last_access = later })
        (cleanup later rl).store,
    length-cleanup later rl small,
  )
