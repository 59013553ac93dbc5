-- ===== src/Prelude/Ordering.antt =====
-- What `order_by` promises: ascending keys, and the same rows.
use Prim.Native.Nat.{ℕ, ◌≤◌}
use mathlib.Core.Path.{◌≡◌, refl, ◌∙◌}
use mathlib.Core.Logic.{inl, inr}
use mathlib.Core.Bool.{Bool, ◌&&◌}
use mathlib.Core.List.{List, [], ◌∷◌}
use native.Mathlib.Omega.{arith}
use kakao_relay.Prelude.Tests.{leb, leb→le, Bool-cases}
use kakao_relay.Prelude.Lists.{select, All}
use kakao_relay.Prelude.Selection.{All-map}
use kakao_relay.Prelude.Tables.{count_where, insert_by, order_by}

module _ {A : Type 0} (key : A → ℕ) where
  -- No row has a larger key than a later one.
  unfoldable pub Ascending : List A → Type 0
  Ascending [] = Unit
  Ascending (x ∷ xs) = All (λ y. key x ≤ key y) xs × Ascending xs

  All-insert_by :
      (P : A → Type 0) (x : A) (xs : List A) → P x → All P xs → All P (insert_by key x xs)
  unfolding insert_by
  All-insert_by P x [] p h = (p, tt)
  All-insert_by P x (y ∷ ys) p (q, h) = elim (Bool-cases (leb (key x) (key y))) [
    | inl first ↦ rw first (p, (q, h))
    | inr later ↦ rw later (q, All-insert_by P x ys p h)
  ]

  insert_by-Ascending : (x : A) (xs : List A) → Ascending xs → Ascending (insert_by key x xs)
  unfolding insert_by Ascending
  insert_by-Ascending x [] s = (tt, tt)
  insert_by-Ascending x (y ∷ ys) (below, s) = elim (Bool-cases (leb (key x) (key y))) [
    | inl first ↦
        let le = leb→le (key x) (key y) first in
        rw first ((le, All-map _ _ (λ z h. omega (arith, le, h)) ys below), (below, s))
    | inr later ↦ rw later (
      All-insert_by (λ z. key y ≤ key z) x ys (ground (arith, later)) below,
      insert_by-Ascending x ys s,
    )
  ]

  pub order_by-Ascending : (xs : List A) → Ascending (order_by key xs)
  unfolding order_by Ascending
  order_by-Ascending [] = tt
  order_by-Ascending (x ∷ xs) = insert_by-Ascending x (order_by key xs) (order_by-Ascending xs)

  count_where-insert_by :
      (p : A → Bool) (x : A) (xs : List A)
      → count_where p (insert_by key x xs) ≡ count_where p (x ∷ xs)
  unfolding insert_by count_where select
  count_where-insert_by p x [] = refl
  count_where-insert_by p x (y ∷ ys) = ground (arith, count_where-insert_by p x ys)

  count_where-after :
      (p : A → Bool) (x : A) (xs ys : List A)
      → count_where p xs ≡ count_where p ys
      → count_where p (x ∷ xs) ≡ count_where p (x ∷ ys)
  unfolding count_where select
  count_where-after p x xs ys h = ground (arith, h)

  pub count_where-order_by :
      (p : A → Bool) (xs : List A) → count_where p (order_by key xs) ≡ count_where p xs
  unfolding order_by
  count_where-order_by p [] = refl
  count_where-order_by p (x ∷ xs) =
      count_where-insert_by p x (order_by key xs)
      ∙ count_where-after p x (order_by key xs) xs (count_where-order_by p xs)

-- Counting among the selected rows.
pub count_where-select :
    {A : Type 0} (p q : A → Bool) (xs : List A)
    → count_where p (select q xs) ≡ count_where (λ x. p x && q x) xs
unfolding count_where select
count_where-select p q [] = refl
count_where-select p q (x ∷ xs) = ground (arith, count_where-select p q xs)
