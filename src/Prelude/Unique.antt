-- ===== src/Prelude/Unique.antt =====
-- Unique indexes over several columns or over a column that may be NULL: no two rows clash.
use mathlib.Core.Path.{◌≡◌, refl, ◌∙◌}
use mathlib.Core.Logic.{inl, inr}
use mathlib.Core.Bool.{Bool, false}
use mathlib.Core.Option.{Option, none, some}
use mathlib.Core.List.{List, [], ◌∷◌, ◌++◌, map}
use kakao_relay.Prelude.Tests.{Bool-cases}
use kakao_relay.Prelude.Lists.{select, All, All-append}
use kakao_relay.Prelude.Text.{Str, option_is}
use kakao_relay.Prelude.Selection.{All-select_keep}
use kakao_relay.Prelude.Tables.{update_where}
use kakao_relay.Prelude.Keys.{All-update_where, All-mapped, str_eq_sym}

-- Equal as SQL compares them: NULL equals nothing.
abbrev pub same_value : Option Str → Option Str → Bool
same_value none o = false
same_value (some s) o = option_is o s

pub same_value-sym : (a b : Option Str) → same_value a b ≡ same_value b a
same_value-sym none none = refl
same_value-sym none (some t) = refl
same_value-sym (some s) none = refl
same_value-sym (some s) (some t) = str_eq_sym t s

module _ {A : Type 0} (clash : A → A → Bool) where
  unfoldable pub Unique : List A → Type 0
  Unique [] = Unit
  Unique (x ∷ xs) = All (λ y. clash y x ≡ false) xs × Unique xs

  pub Unique-append :
      ((x y : A) → clash x y ≡ clash y x)
      → (xs : List A) (x : A) → Unique xs
      → All (λ y. clash y x ≡ false) xs
      → Unique (xs ++ x ∷ [])
  unfolding Unique
  Unique-append flip [] x d h = (tt, tt)
  Unique-append flip (y ∷ ys) x (e, d) (n, h) =
      (All-append _ ys (x ∷ []) e (flip x y ∙ n, tt), Unique-append flip ys x d h)

  -- A change of other columns.
  pub Unique-update_where :
      (p : A → Bool) (f : A → A)
      → ((y x : A) → clash (f y) x ≡ clash y x)
      → ((y x : A) → clash y (f x) ≡ clash y x)
      → (xs : List A) → Unique xs
      → Unique (update_where p f xs)
  unfolding Unique update_where
  Unique-update_where p f left right [] d = tt
  Unique-update_where p f left right (x ∷ xs) (e, d) =
      let rest = Unique-update_where p f left right xs d in
      elim (Bool-cases (p x)) [
        | inl yes_p ↦ rw yes_p (
          All-update_where (λ y. clash y (f x) ≡ false) p f (λ y h. left y (f x) ∙ h) xs
              (All-id (λ y h. right y x ∙ h) xs e),
          rest,
        )
        | inr no_p ↦
            rw no_p (All-update_where (λ y. clash y x ≡ false) p f (λ y h. left y x ∙ h) xs e, rest)
      ]
    where
      All-id : {P Q : A → Type 0} → ((y : A) → P y → Q y) → (ys : List A) → All P ys → All Q ys
      All-id h [] t = tt
      All-id h (y ∷ ys) (p, ps) = (h y p, All-id h ys ps)

  pub Unique-map :
      (f : A → A)
      → ((y x : A) → clash (f y) (f x) ≡ clash y x)
      → (xs : List A) → Unique xs
      → Unique (map f xs)
  unfolding Unique
  Unique-map f same [] d = tt
  Unique-map f same (x ∷ xs) (e, d) =
      (All-mapped _ _ f (λ y h. same y x ∙ h) xs e, Unique-map f same xs d)

  pub Unique-select : (p : A → Bool) (xs : List A) → Unique xs → Unique (select p xs)
  unfolding Unique select
  Unique-select p [] d = tt
  Unique-select p (x ∷ xs) (e, d) = elim (Bool-cases (p x)) [
    | inl yes_p ↦ rw yes_p (All-select_keep _ p xs e, Unique-select p xs d)
    | inr no_p ↦ rw no_p (Unique-select p xs d)
  ]
