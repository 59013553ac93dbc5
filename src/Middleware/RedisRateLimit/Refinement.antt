-- ===== src/Middleware/RedisRateLimit/Refinement.antt =====
-- The Redis limiter for any random parts: what it counts is members, not admissions.
use kakao_relay.Prelude.{
  ℕ, ◌+◌, ◌≤◌, Bool, true, false, ◌&&◌, ◌||◌, not, List, [], ◌∷◌, ◌++◌, ◌≡◌, refl, sym, ap, ap₂,
  ◌∙◌, arith, length, All-map, Bool-cases, inl, inr, leb, leb→le, ◌==◌, if◌then◌else◌,
}
use kakao_relay.Middleware.RedisRateLimit.{
  SortedSet, empty_set, present, drop_old, add_member, run_script, check,
}
use kakao_relay.Middleware.RedisRateLimit.Members.{
  count, Past, DeadBy, Fresh, length-drop_old, count-drop_old, count-dead, count-add_member,
  All-drop_old, All-add_member, All-present,
}
use kakao_relay.Middleware.RedisRateLimit.Sets.{
  has, Sorted, Sorted-drop_old, Sorted-add_member, add_member-known, has-add_member, has-drop_old,
  has-dead, has-append, count-append,
}
use kakao_relay.Middleware.RedisRateLimit.Window.{Call, run_calls}

-- The specification: a log of the members admitted, each once, none ever forgotten.
abbrev pub has_room : ℕ → ℕ → ℕ → List (ℕ × ℕ) → Bool
has_room window limit t log = not (leb limit (count window t log))

abbrev pub log_member : ℕ → ℕ → List (ℕ × ℕ) → List (ℕ × ℕ)
log_member t r log = if has t r log then log else log ++ (t, r) ∷ []

abbrev pub log_call : ℕ → Call → List (ℕ × ℕ) → List (ℕ × ℕ)
log_call window c log =
    if has_room window c.limit c.at log then log_member c.at c.random log else log

pub run_log : ℕ → List Call → List (ℕ × ℕ) → List Bool
run_log window [] log = []
run_log window (c ∷ cs) log =
    has_room window c.limit c.at log ∷ run_log window cs (log_call window c log)

-- The clock does not go back.
unfoldable pub Onward : ℕ → List Call → Type 0
Onward now [] = Unit
Onward now (c ∷ cs) = (now ≤ c.at) × Onward c.at cs

-- The set and the log have the same members that count at, or could be added at, a later time.
record Agrees (window now : ℕ) (ms log : List (ℕ × ℕ)) : Type 0 where
  counts : (t : ℕ) → now ≤ t → count window t ms ≡ count window t log
  names : (t r : ℕ) → now ≤ t → has t r ms ≡ has t r log
  past : Past now ms
  sorted : Sorted ms

record Follows (window now : ℕ) (s : SortedSet) (log : List (ℕ × ℕ)) : Type 0 where
  agrees : Agrees window now s.members log
  expires : DeadBy window s.expires_at s.members

empty-Agrees :
    (window now : ℕ) (log : List (ℕ × ℕ))
    → ((t : ℕ) → now ≤ t → count window t log ≡ 0)
    → ((t r : ℕ) → now ≤ t → has t r log ≡ false)
    → Agrees window now [] log
unfolding Sorted
empty-Agrees window now log none_live none_named = record {
  counts = λ t h. sym (none_live t h);
  names = λ t r h. sym (none_named t r h);
  past = tt;
  sorted = tt;
}

has-Fresh : (t r : ℕ) (ms : List (ℕ × ℕ)) → has t r ms ≡ false → Fresh t r ms
has-Fresh t r [] h = tt
has-Fresh t r ((s, q) ∷ ms) h = (ground (arith, h), has-Fresh t r ms (ground (arith, h)))

count-cons :
    (window u t r : ℕ) (ms log : List (ℕ × ℕ))
    → count window u ms ≡ count window u log
    → count window u ((t, r) ∷ ms) ≡ count window u ((t, r) ∷ log)
count-cons window u t r ms log h = ground (arith, h)

module _ (window now t : ℕ) (pos : 1 ≤ window) (on : now ≤ t) where
  later-Agrees : (ms log : List (ℕ × ℕ)) → Agrees window now ms log → Agrees window t ms log
  later-Agrees ms log a = record {
    counts = λ u h. a.counts u (omega (arith, on, h));
    names = λ u r h. a.names u r (omega (arith, on, h));
    past = All-map _ _ (λ m h. omega (arith, on, h)) ms a.past;
    sorted = a.sorted;
  }

  present-Agrees :
      (s : SortedSet) (log : List (ℕ × ℕ))
      → Follows window now s log
      → Agrees window t (present t s) log
  present-Agrees s log f = elim (Bool-cases (leb s.expires_at t)) [
    | inr here ↦ rw here (later-Agrees s.members log f.agrees)
    | inl gone ↦
        let over = leb→le s.expires_at t gone in
        let a = later-Agrees s.members log f.agrees in
        rw gone (
          empty-Agrees window t log
            (λ u h.
              sym (a.counts u h)
              ∙ count-dead window s.expires_at u s.members f.expires (omega (arith, over, h)))
            (λ u r h.
              sym (a.names u r h)
              ∙ has-dead window s.expires_at u r s.members pos f.expires (omega (arith, over, h))))
  ]

  dropped-Agrees :
      (ms log : List (ℕ × ℕ)) → Agrees window t ms log → Agrees window t (drop_old window t ms) log
  dropped-Agrees ms log a = record {
    counts = λ u h. count-drop_old window t u ms h ∙ a.counts u h;
    names = λ u r h. has-drop_old window t u r ms pos h ∙ a.names u r h;
    past = All-drop_old (λ m. m.0 ≤ t) window t ms a.past;
    sorted = Sorted-drop_old window t ms a.sorted;
  }

  added-Agrees :
      (r : ℕ) (ms log : List (ℕ × ℕ))
      → Agrees window t ms log
      → Agrees window t (add_member t r ms) (log_member t r log)
  added-Agrees r ms log a = elim (Bool-cases (has t r log)) [
    | inl known ↦ rw (known, add_member-known t r ms a.sorted (a.names t r (omega arith) ∙ known)) a
    | inr new ↦ rw new (record {
      counts = λ u h.
          count-add_member window u t r ms (has-Fresh t r ms (a.names t r (omega arith) ∙ new))
          ∙ count-cons window u t r ms log (a.counts u h)
          ∙ sym (count-append window u t r log);
      names = λ u q h.
          has-add_member u q t r ms
          ∙ ap (λ b. (t == u && r == q) || b) (a.names u q h)
          ∙ sym (has-append u q t r log);
      past = All-add_member (λ m. m.0 ≤ t) t r ms (omega arith) a.past;
      sorted = Sorted-add_member t r ms a.sorted;
    })
  ]

  -- One call: the answer, and what is left.
  module _ (s : SortedSet) (log : List (ℕ × ℕ)) (f : Follows window now s log) where
    abbrev left : List (ℕ × ℕ)
    left = drop_old window t (present t s)

    left-Agrees : Agrees window t left log
    left-Agrees = dropped-Agrees (present t s) log (present-Agrees s log f)

    length-left : length left ≡ count window t log
    length-left =
        length-drop_old window t (present t s)
        ∙ sym (count-drop_old window t t (present t s) (omega arith))
        ∙ left-Agrees.counts t (omega arith)

    left-DeadBy : DeadBy window s.expires_at left
    left-DeadBy = All-drop_old _ window t (present t s) (All-present _ t s f.expires)

    run_script-room :
        (limit r : ℕ) → (run_script window limit t r s).0.allowed ≡ has_room window limit t log
    unfolding run_script
    run_script-room limit r = ground (arith, length-left)

    added-DeadBy : (r : ℕ) → DeadBy window (t + window + 10) (add_member t r left)
    added-DeadBy r =
        All-add_member (λ m. m.0 + window ≤ t + window + 10) t r left (omega arith)
          (All-map (λ m. m.0 ≤ t) _ (λ m h. omega (arith, h)) left left-Agrees.past)

    run_script-Follows :
        (limit r : ℕ)
        → Follows window t
            (run_script window limit t r s).1
            (if has_room window limit t log then log_member t r log else log)
    unfolding run_script
    run_script-Follows limit r = elim (Bool-cases (leb limit (length left))) [
      | inl full ↦
          let closed : has_room window limit t log ≡ false = ground (arith, full, length-left) in
          rw (full, closed) (record { agrees = left-Agrees; expires = left-DeadBy })
      | inr room ↦
          let open' : has_room window limit t log ≡ true = ground (arith, room, length-left) in
          rw (room, open')
            (record { agrees = added-Agrees r left log left-Agrees; expires = added-DeadBy r })
    ]

empty-Follows : (window now : ℕ) → Follows window now empty_set []
empty-Follows window now = record {
  agrees = empty-Agrees window now [] (λ t h. refl) (λ t r h. refl);
  expires = tt;
}

run-Follows :
    (window now : ℕ) (cs : List Call) (s : SortedSet) (log : List (ℕ × ℕ))
    → 1 ≤ window
    → Onward now cs
    → Follows window now s log
    → run_calls window cs s ≡ run_log window cs log
unfolding run_calls run_log Onward check
run-Follows window now [] s log pos o f = refl
run-Follows window now (c ∷ cs) s log pos (on, o) f =
    ap₂ (λ b bs. b ∷ bs) (run_script-room window now c.at pos on s log f c.limit c.random)
      (run-Follows window c.at cs _ _ pos o
        (run_script-Follows window now c.at pos on s log f c.limit c.random))

-- From an absent key, when Redis answers every call and the clock does not go back, whatever random
-- parts are drawn, a run of calls for a key is answered by a log of the members that were admitted,
-- each once: a call is allowed exactly when fewer members than its limit are less than the window
-- ago. The key's time to live and the removal of old members do not show, but two admissions within
-- one second that draw the same random part are one member and count once.
pub run_calls-eq-log :
    (window now : ℕ) (cs : List Call)
    → 1 ≤ window
    → Onward now cs
    → run_calls window cs empty_set ≡ run_log window cs []
run_calls-eq-log window now cs pos o =
    run-Follows window now cs empty_set [] pos o (empty-Follows window now)
