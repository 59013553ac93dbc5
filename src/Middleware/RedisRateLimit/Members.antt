-- ===== src/Middleware/RedisRateLimit/Members.antt =====
-- The members of the sorted set that are left after some time.
use kakao_relay.Prelude.{
  ℕ, ◌+◌, ◌≤◌, false, ◌&&◌, List, [], ◌∷◌, ◌≡◌, refl, arith, length, All, Bool-cases, inl, inr, ltb,
  leb, ◌==◌, ◌||◌, if◌then◌else◌,
}
use kakao_relay.Middleware.Window.{is_live}
use kakao_relay.Middleware.RedisRateLimit.{SortedSet, present, drop_old, add_member}

-- How many members are less than `window` ago.
abbrev pub count : ℕ → ℕ → List (ℕ × ℕ) → ℕ
count window t [] = 0
count window t ((s, r) ∷ ms) =
    let rest = count window t ms in if is_live window t s then 1 + rest else rest

abbrev pub Past : ℕ → List (ℕ × ℕ) → Type 0
Past now ms = All (λ m. m.0 ≤ now) ms

abbrev pub DeadBy : ℕ → ℕ → List (ℕ × ℕ) → Type 0
DeadBy window t ms = All (λ m. m.0 + window ≤ t) ms

-- No member has this time and random part.
abbrev pub Fresh : ℕ → ℕ → List (ℕ × ℕ) → Type 0
Fresh t r ms = All (λ m. (m.0 == t && m.1 == r) ≡ false) ms

pub length-drop_old :
    (window t : ℕ) (ms : List (ℕ × ℕ)) → length (drop_old window t ms) ≡ count window t ms
unfolding drop_old
length-drop_old window t [] = refl
length-drop_old window t ((s, r) ∷ ms) = ground (arith, length-drop_old window t ms)

pub count-drop_old :
    (window t u : ℕ) (ms : List (ℕ × ℕ))
    → t ≤ u
    → count window u (drop_old window t ms) ≡ count window u ms
unfolding drop_old
count-drop_old window t u [] later = refl
count-drop_old window t u ((s, r) ∷ ms) later =
    ground (arith, later, count-drop_old window t u ms later)

pub count-dead :
    (window t u : ℕ) (ms : List (ℕ × ℕ)) → DeadBy window t ms → t ≤ u → count window u ms ≡ 0
count-dead window t u [] dead later = refl
count-dead window t u ((s, r) ∷ ms) (d, dead) later =
    ground (arith, d, later, count-dead window t u ms dead later)

pub count-add_member :
    (window u t r : ℕ) (ms : List (ℕ × ℕ))
    → Fresh t r ms
    → count window u (add_member t r ms) ≡ count window u ((t, r) ∷ ms)
unfolding add_member
count-add_member window u t r [] fresh = refl
count-add_member window u t r ((s, q) ∷ ms) (f, fresh) =
    ground (arith, f, count-add_member window u t r ms fresh)

module _ (P : ℕ × ℕ → Type 0) where
  pub All-drop_old : (window t : ℕ) (ms : List (ℕ × ℕ)) → All P ms → All P (drop_old window t ms)
  unfolding drop_old
  All-drop_old window t [] h = tt
  All-drop_old window t ((s, r) ∷ ms) (h, hs) = elim (Bool-cases (leb (s + window) t)) [
    | inl old ↦ rw old (All-drop_old window t ms hs)
    | inr new ↦ rw new (h, All-drop_old window t ms hs)
  ]

  pub All-add_member :
      (t r : ℕ) (ms : List (ℕ × ℕ)) → P (t, r) → All P ms → All P (add_member t r ms)
  unfolding add_member
  All-add_member t r [] p h = (p, tt)
  All-add_member t r ((s, q) ∷ ms) p (h, hs) = elim (Bool-cases (ltb t s || (s == t && ltb r q))) [
    | inl before ↦ rw before (p, (h, hs))
    | inr later ↦ elim (Bool-cases (s == t && r == q)) [
      | inl equal ↦ rw (later, equal) (h, hs)
      | inr other ↦ rw (later, other) (h, All-add_member t r ms p hs)
    ]
  ]

  pub All-present : (now : ℕ) (s : SortedSet) → All P s.members → All P (present now s)
  All-present now s h = elim (Bool-cases (leb s.expires_at now)) [
    | inl gone ↦ rw gone tt
    | inr here ↦ rw here h
  ]
