-- ===== src/Middleware/RedisRateLimit/Window.antt =====
-- The Redis limiter and the sliding window.
use kakao_relay.Prelude.{
  ℕ, ◌+◌, ◌≤◌, Bool, true, false, some, List, [], ◌∷◌, ◌++◌, ◌≡◌, refl, sym, ap₂, ◌∙◌, arith,
  length, length-append, select, All-map, Bool-cases, inl, inr, leb, leb→le,
}
use kakao_relay.Middleware.Window.{live, admits, admit}
use kakao_relay.Middleware.Window.Laws.{live-append}
use kakao_relay.Middleware.RedisRateLimit.{
  SortedSet, empty_set, present, drop_old, add_member, run_script, check,
}
use kakao_relay.Middleware.RedisRateLimit.Members.{
  count, Past, DeadBy, Fresh, length-drop_old, count-drop_old, count-dead, count-add_member,
  All-drop_old, All-add_member, All-present,
}

-- The key of Redis holds what the sliding window over a log of all admissions counts.
pub record Tracks (window now : ℕ) (s : SortedSet) (log : List ℕ) : Type 0 where
  pub agrees : (t : ℕ) → now ≤ t → count window t s.members ≡ length (live window t log)
  pub past : Past now s.members
  pub expires : DeadBy window s.expires_at s.members

module _ (window now t : ℕ) (s : SortedSet) (log : List ℕ) (later : now ≤ t)
    (tracks : Tracks window now s log) where
  -- Redis has dropped the key only when all its members are old.
  count-present : (u : ℕ) → t ≤ u → count window u (present t s) ≡ length (live window u log)
  count-present u after = elim (Bool-cases (leb s.expires_at t)) [
    | inl gone ↦ rw gone (
        sym (
          count-dead window s.expires_at u s.members tracks.expires
            (omega (arith, leb→le s.expires_at t gone)))
        ∙ tracks.agrees u (omega arith))
    | inr here ↦ rw here (tracks.agrees u (omega arith))
  ]

  length-old : length (drop_old window t (present t s)) ≡ length (live window t log)
  length-old = length-drop_old window t (present t s) ∙ count-present t (omega arith)

  -- The answer of the script is the sliding window's.
  pub run_script-allows :
      (limit r : ℕ) → (run_script window limit t r s).0.allowed ≡ admits window limit t log
  unfolding run_script admits
  run_script-allows limit r = ground (arith, length-old)

  members-Past : Past t (drop_old window t (present t s))
  members-Past =
      All-drop_old (λ m. m.0 ≤ t) window t (present t s)
        (All-present (λ m. m.0 ≤ t) t s
          (All-map (λ m. m.0 ≤ now) (λ m. m.0 ≤ t) (λ m h. omega arith) s.members tracks.past))

  count-members :
      (u : ℕ)
      → t ≤ u
      → count window u (drop_old window t (present t s)) ≡ length (live window u log)
  count-members u after = count-drop_old window t u (present t s) after ∙ count-present u after

  count-admitted :
      (u r : ℕ)
      → t ≤ u
      → Fresh t r (drop_old window t (present t s))
      → count window u (add_member t r (drop_old window t (present t s)))
        ≡ length (live window u (log ++ t ∷ []))
  count-admitted u r after fresh =
      count-add_member window u t r (drop_old window t (present t s)) fresh
      ∙ rw live-append (
          unfold live select in
          ground (
            arith,
            count-members u after,
            length-append (live window u log) (live window u (t ∷ [])),
          ))

  refused-Tracks : Tracks window t (record s { members = drop_old window t (present t s) }) log
  refused-Tracks = record {
    agrees = λ u h. count-members u h;
    past = members-Past;
    expires = All-drop_old _ window t (present t s) (All-present _ t s tracks.expires);
  }

  admitted-Tracks :
      (r : ℕ)
      → Fresh t r (drop_old window t (present t s))
      → Tracks window t
          (record {
            members = add_member t r (drop_old window t (present t s));
            expires_at = t + window + 10;
          })
          (log ++ t ∷ [])
  admitted-Tracks r fresh = record {
    agrees = λ u h. count-admitted u r h fresh;
    past = All-add_member (λ m. m.0 ≤ t) t r _ (omega arith) members-Past;
    expires =
        All-add_member (λ m. m.0 + window ≤ t + window + 10) t r _ (omega arith)
          (All-map (λ m. m.0 ≤ t) _ (λ m h. omega arith) _ members-Past);
  }

  admit-full :
      (limit : ℕ)
      → leb limit (length (drop_old window t (present t s))) ≡ true
      → admit window limit t log ≡ log
  unfolding admit admits
  admit-full limit full = ground (arith, length-old)

  admit-room :
      (limit : ℕ)
      → leb limit (length (drop_old window t (present t s))) ≡ false
      → admit window limit t log ≡ log ++ t ∷ []
  unfolding admit admits
  admit-room limit room = ground (arith, length-old)

  -- After the script, the key tracks the log of admissions again.
  pub run_script-Tracks :
      (limit r : ℕ)
      → Fresh t r (drop_old window t (present t s))
      → Tracks window t (run_script window limit t r s).1 (admit window limit t log)
  unfolding run_script
  run_script-Tracks limit r fresh =
      elim (Bool-cases (leb limit (length (drop_old window t (present t s))))) [
        | inl full ↦ rw (full, admit-full limit full) refused-Tracks
        | inr room ↦ rw (room, admit-room limit room) (admitted-Tracks r fresh)
      ]

empty-Tracks : (window now : ℕ) → Tracks window now empty_set []
unfolding live select
empty-Tracks window now = record { agrees = λ t h. refl; past = tt; expires = tt }

-- A call: the limit, the time in seconds and the random part of the member.
pub record Call : Type 0 where
  pub limit : ℕ
  pub at : ℕ
  pub random : ℕ

unfoldable pub run_calls : ℕ → List Call → SortedSet → List Bool
run_calls window [] s = []
run_calls window (c ∷ cs) s =
    let (v, s') = check window c.limit c.at (some c.random) s in v.allowed ∷ run_calls window cs s'

pub run_window : ℕ → List Call → List ℕ → List Bool
run_window window [] log = []
run_window window (c ∷ cs) log =
    admits window c.limit c.at log ∷ run_window window cs (admit window c.limit c.at log)

-- The clock does not go back, and no random part is drawn twice in the same second as long as its
-- member is in the set.
unfoldable pub Regular : ℕ → ℕ → List Call → SortedSet → Type 0
Regular window now [] s = Unit
Regular window now (c ∷ cs) s =
    (now ≤ c.at)
    × (Fresh c.at c.random (drop_old window c.at (present c.at s))
        × Regular window c.at cs (check window c.limit c.at (some c.random) s).1)

run-Tracks :
    (window now : ℕ) (cs : List Call) (s : SortedSet) (log : List ℕ)
    → Regular window now cs s
    → Tracks window now s log
    → run_calls window cs s ≡ run_window window cs log
unfolding run_calls run_window Regular check
run-Tracks window now [] s log h tr = refl
run-Tracks window now (c ∷ cs) s log (on, (fresh, h)) tr =
    ap₂ (λ b bs. b ∷ bs) (run_script-allows window now c.at s log on tr c.limit c.random)
      (run-Tracks window c.at cs _ _ h
        (run_script-Tracks window now c.at s log on tr c.limit c.random fresh))

-- From an absent key, when Redis answers every call, the clock does not go back and members do
-- not coincide, the Redis limiter answers any run of calls for a key as the sliding window over
-- all admissions does: the key's time to live never lets it forget one too early.
pub run_calls-eq-window :
    (window now : ℕ) (cs : List Call)
    → Regular window now cs empty_set
    → run_calls window cs empty_set ≡ run_window window cs []
run_calls-eq-window window now cs h =
    run-Tracks window now cs empty_set [] h (empty-Tracks window now)
