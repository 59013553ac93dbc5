-- ===== src/Prelude/Selection.antt =====
-- Laws of `select`, `find_where` and `update_where`.
use Prim.Native.Nat.{◌≤◌}
use mathlib.Core.Path.{◌≡◌, refl}
use mathlib.Core.Logic.{inl, inr}
use mathlib.Core.Bool.{Bool, true, false}
use mathlib.Core.Option.{none, some}
use mathlib.Core.List.{List, [], ◌∷◌, ◌++◌}
use native.Mathlib.Omega.{arith}
use kakao_relay.Prelude.Tests.{if◌then◌else◌, Bool-cases}
use kakao_relay.Prelude.Lists.{length, select, All}
use kakao_relay.Prelude.Tables.{find_where, update_where}

module _ {ℓ} {A : Type ℓ} where
  pub select-append :
      (p : A → Bool) (xs ys : List A) → select p (xs ++ ys) ≡ select p xs ++ select p ys
  unfolding select
  select-append p [] ys = refl
  select-append p (x ∷ xs) ys = ground (arith, select-append p xs ys)

  -- A weaker test first changes nothing.
  pub select-select :
      (p q : A → Bool)
      → ((x : A) → p x ≡ true → q x ≡ true)
      → (xs : List A) → select p (select q xs) ≡ select p xs
  unfolding select
  select-select p q weaker [] = refl
  select-select p q weaker (x ∷ xs) = ground (arith, weaker x, select-select p q weaker xs)

  pub length-select-le : (p : A → Bool) (xs : List A) → length (select p xs) ≤ length xs
  unfolding select
  length-select-le p [] = omega arith
  length-select-le p (x ∷ xs) = ground (arith, length-select-le p xs)

  -- A stronger test selects no more.
  pub length-select_mono :
      (p q : A → Bool)
      → ((x : A) → p x ≡ true → q x ≡ true)
      → (xs : List A) → length (select p xs) ≤ length (select q xs)
  unfolding select
  length-select_mono p q weaker [] = omega arith
  length-select_mono p q weaker (x ∷ xs) =
      ground (arith, weaker x, length-select_mono p q weaker xs)

  pub All-select : (p : A → Bool) (xs : List A) → All (λ x. p x ≡ true) (select p xs)
  unfolding select
  All-select p [] = tt
  All-select p (x ∷ xs) = elim (Bool-cases (p x)) [
    | inl h ↦ rw h (h, All-select p xs)
    | inr h ↦ rw h (All-select p xs)
  ]

  -- Nothing is left where no row passes.
  pub select-none : (p : A → Bool) (xs : List A) → All (λ x. p x ≡ false) xs → select p xs ≡ []
  unfolding select
  select-none p [] h = refl
  select-none p (x ∷ xs) (h, hs) = ground (arith, select-none p xs hs)

  -- What a lookup finds passes its test.
  pub find_where-true : (p : A → Bool) (xs : List A) (x : A) → find_where p xs ≡ some x → p x ≡ true
  unfolding find_where
  find_where-true p [] x h = cc
  find_where-true p (y ∷ ys) x h = ground (arith, find_where-true p ys x)

  -- An update that keeps the key finds the updated row.
  pub find_where-update_where :
      (p q : A → Bool) (f : A → A)
      → ((x : A) → q x ≡ true → p (f x) ≡ p x)
      → (xs : List A) (x : A) → find_where p xs ≡ some x
      → find_where p (update_where q f xs) ≡ some (if q x then f x else x)
  unfolding find_where update_where
  find_where-update_where p q f keeps [] x h = cc
  find_where-update_where p q f keeps (y ∷ ys) x h =
      ground (arith, keeps y, find_where-update_where p q f keeps ys x)

  -- A row that was inserted last is found where no other row is.
  pub find-append :
      (p : A → Bool) (xs : List A) (x : A)
      → find_where p xs ≡ none
      → p x ≡ true
      → find_where p (xs ++ x ∷ []) ≡ some x
  unfolding find_where
  find-append p [] x h yes' = rw yes' refl
  find-append p (y ∷ ys) x h yes' = ground (arith, h, yes', find-append p ys x)

  -- An update changes nothing where no row passes.
  pub update_where-none :
      (q : A → Bool) (f : A → A) (xs : List A)
      → All (λ x. q x ≡ false) xs
      → update_where q f xs ≡ xs
  unfolding update_where
  update_where-none q f [] h = refl
  update_where-none q f (x ∷ xs) (h, hs) = ground (arith, update_where-none q f xs hs)

-- What holds of every element holds of the selected ones.
pub All-select_keep {ℓ κ} :
    {A : Type ℓ} (P : A → Type κ) (p : A → Bool) (xs : List A) → All P xs → All P (select p xs)
unfolding select
All-select_keep P p [] h = tt
All-select_keep P p (x ∷ xs) (h, hs) = elim (Bool-cases (p x)) [
  | inl pass ↦ rw pass (h, All-select_keep P p xs hs)
  | inr fail ↦ rw fail (All-select_keep P p xs hs)
]

pub All-map {ℓ κ} :
    {A : Type ℓ} (P Q : A → Type κ) → ((x : A) → P x → Q x) → (xs : List A) → All P xs → All Q xs
All-map P Q f [] h = tt
All-map P Q f (x ∷ xs) (h, hs) = (f x h, All-map P Q f xs hs)
