-- ===== src/Repository/Query.antt =====
-- internal/repository/helpers.go, and the three kinds of database call that repositories make.
pub mod Cases
use kakao_relay.Prelude.{Str, Option, none, some, lit}
use kakao_relay.World.{Database, World, Result, ok, err, M, db_call}

-- What `GetContext` leaves behind: a row, `sql.ErrNoRows`, or another error.
pub data Row (A : Type 0) : Type 0 where
  row : A → Row A
  no_rows : Row A
  failed : Str → Row A

module _ {A : Type 0} where
  -- `HandleNotFound`
  unfoldable pub handle_not_found : Row A → Result (Option A)
  handle_not_found (row a) = ok (some a)
  handle_not_found no_rows = ok none
  handle_not_found (failed e) = err e

  abbrev pub row_of : Result (Option A) → Row A
  row_of (ok (some a)) = row a
  row_of (ok none) = no_rows
  row_of (err e) = failed e

  -- SELECT one row, through `HandleNotFound`.
  unfoldable pub get_context : (World → Option A) → M (Option A)
  unfolding handle_not_found db_call
  get_context q w =
      let (r, w') = db_call (λ w. (ok (q w), w.db)) w in (handle_not_found (row_of r), w')

  -- SELECT many rows or a count.
  unfoldable pub select_context : (World → A) → M A
  unfolding db_call
  select_context q = db_call λ w. (ok (q w), w.db)

  -- UPDATE or DELETE whose result is its value, such as the number of rows affected.
  unfoldable pub exec_context : (World → A × Database) → M A
  unfolding db_call
  exec_context q = db_call λ w. let (a, db) = q w in (ok a, db)

  -- INSERT or UPDATE that a constraint may refuse.
  unfoldable pub insert_context : (World → Result A × Database) → M A
  unfolding db_call
  insert_context q = db_call q

abbrev pub unique_violation : Str
unique_violation = lit "duplicate key value violates unique constraint"

abbrev pub foreign_key_violation : Str
foreign_key_violation = lit "insert violates foreign key constraint"
