-- ===== src/Repository/Query/Cases.antt =====
-- The two ends of a database call: the fault of the schedule, or the statement's result.
use kakao_relay.Prelude.{Str, Option, none, some, ◌≡◌, refl, ap, ◌∙◌, ◌⊎◌, inl, inr}
use kakao_relay.World.{Database, World, Result, ok, err, db_call, run_call, next, after}
use kakao_relay.Repository.Query.{
  handle_not_found, row_of, get_context, select_context, exec_context,
}

module _ {A : Type 0} where
  abbrev pub Ends : Result A × World → World → Result A × World → Type 0
  Ends out w result = ((e : Str) × (out ≡ (err e, after w))) ⊎ (out ≡ result)

  run_call-Ends :
      (o : Option Str) (run : World → Result A × Database) (w : World)
      → Ends
          (run_call o run (after w))
          w
          ((run (after w)).0, record (after w) { db = (run (after w)).1 })
  run_call-Ends (some e) run w = inl (e, refl)
  run_call-Ends none run w = inr refl

  pub db_call-Ends :
      (run : World → Result A × Database) (w : World)
      → Ends (db_call run w) w ((run (after w)).0, record (after w) { db = (run (after w)).1 })
  unfolding db_call
  db_call-Ends run w = run_call-Ends (next none w.db_faults).0 run w

  pub select_context-Ends :
      (q : World → A) (w : World) → Ends (select_context q w) w (ok (q (after w)), after w)
  unfolding select_context
  select_context-Ends q w = run_call-Ends (next none w.db_faults).0 _ w

  pub exec_context-Ends :
      (q : World → A × Database) (w : World)
      → Ends (exec_context q w) w (ok (q (after w)).0, record (after w) { db = (q (after w)).1 })
  unfolding exec_context
  exec_context-Ends q w = run_call-Ends (next none w.db_faults).0 _ w

module _ {A : Type 0} where
  -- `HandleNotFound` gives back the row, no row, or the error.
  handle-row_of : (r : Result (Option A)) → handle_not_found (row_of r) ≡ r
  unfolding handle_not_found
  handle-row_of (ok (some a)) = refl
  handle-row_of (ok none) = refl
  handle-row_of (err e) = refl

  get_context-eq-select : (q : World → Option A) (w : World) → get_context q w ≡ select_context q w
  unfolding get_context select_context
  get_context-eq-select q w =
      let (r, w') = db_call (λ w. (ok (q w), w.db)) w in
      ap (λ (o : Result (Option A)). (o, w')) (handle-row_of r)

  pub get_context-Ends :
      (q : World → Option A) (w : World) → Ends (get_context q w) w (ok (q (after w)), after w)
  get_context-Ends q w = rw get_context-eq-select (select_context-Ends q w)

-- The database answers the next call.
abbrev pub Answers : World → Type 0
Answers w = (next none w.db_faults).0 ≡ none

module _ {A : Type 0} where
  pub db_call-Answers :
      (run : World → Result A × Database) (w : World)
      → Answers w
      → db_call run w ≡ ((run (after w)).0, record (after w) { db = (run (after w)).1 })
  unfolding db_call
  db_call-Answers run w h = ap (λ o. run_call o run (after w)) h

  pub select_context-Answers :
      (q : World → A) (w : World) → Answers w → select_context q w ≡ (ok (q (after w)), after w)
  unfolding select_context db_call
  select_context-Answers q w h = ap (λ o. run_call o (λ w. (ok (q w), w.db)) (after w)) h

module _ {A : Type 0} where
  pub get_context-Answers :
      (q : World → Option A) (w : World) → Answers w → get_context q w ≡ (ok (q (after w)), after w)
  get_context-Answers q w h = get_context-eq-select q w ∙ select_context-Answers q w h
