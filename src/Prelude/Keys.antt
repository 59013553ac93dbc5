-- ===== src/Prelude/Keys.antt =====
-- Unique columns and references of a table, and the statements that keep them.
use mathlib.Core.Path.{◌≡◌, refl}
use mathlib.Core.Logic.{inl, inr}
use mathlib.Core.Bool.{Bool, true, false, not}
use mathlib.Core.List.{List, [], ◌∷◌, ◌++◌, map}
use native.Mathlib.Omega.{arith}
use kakao_relay.Prelude.Tests.{Bool-cases, is_some}
use kakao_relay.Prelude.Lists.{select, All, All-append}
use kakao_relay.Prelude.Text.{Str, str_eq, str_eq_iff}
use kakao_relay.Prelude.Selection.{All-select_keep}
use kakao_relay.Prelude.Tables.{find_where, update_where}

-- Where no row passes a test, all fail it, and so with a weaker one.
pub find_where-none :
    {A : Type 0} (p q : A → Bool) (xs : List A)
    → ((x : A) → p x ≡ false → q x ≡ false)
    → is_some (find_where p xs) ≡ false
    → All (λ x. q x ≡ false) xs
unfolding find_where
find_where-none p q [] weaker h = tt
find_where-none p q (x ∷ xs) weaker h =
    let here : (p x ≡ false) × (is_some (find_where p xs) ≡ false) = ground (arith, h) in
    (weaker x here.0, find_where-none p q xs weaker here.1)

pub All-update_where :
    {A : Type 0} (P : A → Type 0) (p : A → Bool) (f : A → A)
    → ((x : A) → P x → P (f x))
    → (xs : List A) → All P xs
    → All P (update_where p f xs)
unfolding update_where
All-update_where P p f keeps [] h = tt
All-update_where P p f keeps (x ∷ xs) (h, hs) = elim (Bool-cases (p x)) [
  | inl yes_p ↦ rw yes_p (keeps x h, All-update_where P p f keeps xs hs)
  | inr no_p ↦ rw no_p (h, All-update_where P p f keeps xs hs)
]

pub All-mapped :
    {A : Type 0} (P Q : A → Type 0) (f : A → A)
    → ((x : A) → P x → Q (f x))
    → (xs : List A) → All P xs
    → All Q (map f xs)
All-mapped P Q f h [] t = tt
All-mapped P Q f h (x ∷ xs) (p, ps) = (h x p, All-mapped P Q f h xs ps)

-- Two texts differ from either side.
pub apart : (s t : Str) → str_eq t s ≡ false → str_eq s t ≡ false
apart s t h = ground (arith, str_eq_iff s t, str_eq_iff t s, h)

module _ {A : Type 0} (key : A → Str) where
  -- The column is unique.
  unfoldable pub Distinct : List A → Type 0
  Distinct [] = Unit
  Distinct (x ∷ xs) = All (λ y. str_eq (key y) (key x) ≡ false) xs × Distinct xs

  pub Distinct-append :
      (xs : List A) (x : A)
      → Distinct xs
      → All (λ y. str_eq (key y) (key x) ≡ false) xs
      → Distinct (xs ++ x ∷ [])
  unfolding Distinct
  Distinct-append [] x d h = (tt, tt)
  Distinct-append (y ∷ ys) x (e, d) (n, h) =
      (All-append _ ys (x ∷ []) e (apart (key x) (key y) n, tt), Distinct-append ys x d h)

  pub Distinct-update_where :
      (p : A → Bool) (f : A → A)
      → ((x : A) → key (f x) ≡ key x)
      → (xs : List A) → Distinct xs
      → Distinct (update_where p f xs)
  unfolding Distinct update_where
  Distinct-update_where p f same [] d = tt
  Distinct-update_where p f same (x ∷ xs) (e, d) =
      let tail : All (λ y. str_eq (key y) (key x) ≡ false) (update_where p f xs) =
        All-update_where _ p f (λ y h. rw (same y) h) xs e in
      elim (Bool-cases (p x)) [
        | inl yes_p ↦ rw (yes_p, same x) (tail, Distinct-update_where p f same xs d)
        | inr no_p ↦ rw no_p (tail, Distinct-update_where p f same xs d)
      ]

  pub Distinct-map :
      (f : A → A)
      → ((x : A) → key (f x) ≡ key x)
      → (xs : List A) → Distinct xs
      → Distinct (map f xs)
  unfolding Distinct
  Distinct-map f same [] d = tt
  Distinct-map f same (x ∷ xs) (e, d) = (
    rw (same x) (All-mapped (λ y. str_eq (key y) (key x) ≡ false) _ f (λ y h. rw (same y) h) xs e),
    Distinct-map f same xs d,
  )

  pub Distinct-select : (p : A → Bool) (xs : List A) → Distinct xs → Distinct (select p xs)
  unfolding Distinct select
  Distinct-select p [] d = tt
  Distinct-select p (x ∷ xs) (e, d) = elim (Bool-cases (p x)) [
    | inl yes_p ↦ rw yes_p (All-select_keep _ p xs e, Distinct-select p xs d)
    | inr no_p ↦ rw no_p (Distinct-select p xs d)
  ]

module _ {A : Type 0} (p : A → Bool) where
  -- A reference is still met after an insert, after an update that keeps the key, and after a
  -- deletion of other rows.
  pub is_some-append :
      (xs ys : List A) → is_some (find_where p xs) ≡ true → is_some (find_where p (xs ++ ys)) ≡ true
  unfolding find_where
  is_some-append [] ys h = absurd (ground arith)
  is_some-append (x ∷ xs) ys h = ground (arith, h, is_some-append xs ys)

  pub is_some-update_where :
      (q : A → Bool) (f : A → A)
      → ((x : A) → p (f x) ≡ p x)
      → (xs : List A) → is_some (find_where p (update_where q f xs)) ≡ is_some (find_where p xs)
  unfolding find_where update_where
  is_some-update_where q f same [] = refl
  is_some-update_where q f same (x ∷ xs) = ground (arith, same x, is_some-update_where q f same xs)

  pub is_some-select :
      (q : A → Bool)
      → ((x : A) → p x ≡ true → q x ≡ true)
      → (xs : List A) → is_some (find_where p xs) ≡ true
      → is_some (find_where p (select q xs)) ≡ true
  unfolding find_where select
  is_some-select q others [] h = h
  is_some-select q others (x ∷ xs) h = ground (arith, h, others x, is_some-select q others xs)

  -- A row that is not among the deleted ones is among those that are left.
  pub is_some-split :
      (q : A → Bool) (xs : List A)
      → is_some (find_where p xs) ≡ true
      → is_some (find_where p (select q xs)) ≡ false
      → is_some (find_where p (select (λ x. not (q x)) xs)) ≡ true
  unfolding find_where select
  is_some-split q [] h g = absurd (ground arith)
  is_some-split q (x ∷ xs) h g = ground (arith, h, g, is_some-split q xs)

pub find_where-same :
    {A : Type 0} (p q : A → Bool)
    → ((x : A) → p x ≡ q x)
    → (xs : List A) → find_where p xs ≡ find_where q xs
unfolding find_where
find_where-same p q same [] = refl
find_where-same p q same (x ∷ xs) = rw (same x, find_where-same p q same xs) refl

pub str_eq_sym : (s t : Str) → str_eq s t ≡ str_eq t s
str_eq_sym s t = ground (arith, str_eq_iff s t, str_eq_iff t s)
