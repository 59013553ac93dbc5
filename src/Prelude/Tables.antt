-- ===== src/Prelude/Tables.antt =====
-- Tables as lists of rows: the shapes of SQL statement that the repositories use.
use Prim.Native.Nat.{ℕ}
use mathlib.Core.Bool.{Bool, not}
use mathlib.Core.Option.{Option, none, some}
use mathlib.Core.List.{List, [], ◌∷◌}
use kakao_relay.Prelude.Tests.{leb, if◌then◌else◌}
use kakao_relay.Prelude.Lists.{length, select}

module _ {ℓ} {A : Type ℓ} where
  -- SELECT … WHERE p, first row
  unfoldable pub find_where : (A → Bool) → List A → Option A
  find_where p [] = none
  find_where p (x ∷ xs) = let rest = find_where p xs in if p x then some x else rest

  -- UPDATE … SET f WHERE p
  unfoldable pub update_where : (A → Bool) → (A → A) → List A → List A
  update_where p f [] = []
  update_where p f (x ∷ xs) = (if p x then f x else x) ∷ update_where p f xs

  -- DELETE … WHERE p
  unfoldable pub delete_where : (A → Bool) → List A → List A
  delete_where p = select (λ x. not (p x))

  -- SELECT COUNT(*) … WHERE p
  unfoldable pub count_where : (A → Bool) → List A → ℕ
  count_where p xs = length (select p xs)

  unfoldable pub insert_by : (A → ℕ) → A → List A → List A
  insert_by key x [] = x ∷ []
  insert_by key x (y ∷ ys) =
      let rest = insert_by key x ys in if leb (key x) (key y) then x ∷ y ∷ ys else y ∷ rest

  -- ORDER BY key ASC
  unfoldable pub order_by : (A → ℕ) → List A → List A
  order_by key [] = []
  order_by key (x ∷ xs) = insert_by key x (order_by key xs)
