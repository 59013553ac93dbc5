-- ===== src/Middleware/RedisRateLimit/Sets.antt =====
-- The sorted set as a set: its order, and which members it has after each command.
use kakao_relay.Prelude.{
  ℕ, ◌+◌, ◌≤◌, Bool, true, false, ◌&&◌, ◌||◌, List, [], ◌∷◌, ◌++◌, ◌≡◌, refl, ap, arith, All,
  All-map, Bool-cases, inl, inr, ltb, leb, ◌==◌,
}
use kakao_relay.Middleware.RedisRateLimit.{drop_old, add_member}
use kakao_relay.Middleware.RedisRateLimit.Members.{count, DeadBy, All-drop_old, All-add_member}

-- The member with this time and random part is there.
abbrev pub has : ℕ → ℕ → List (ℕ × ℕ) → Bool
has t r [] = false
has t r ((s, q) ∷ ms) = (s == t && q == r) || has t r ms

-- By time, then by random part.
abbrev pub before : ℕ × ℕ → ℕ × ℕ → Bool
before (t, r) (s, q) = ltb t s || (s == t && ltb r q)

unfoldable pub Sorted : List (ℕ × ℕ) → Type 0
Sorted [] = Unit
Sorted (m ∷ ms) = All (λ n. before m n ≡ true) ms × Sorted ms

pub Sorted-drop_old : (window t : ℕ) (ms : List (ℕ × ℕ)) → Sorted ms → Sorted (drop_old window t ms)
unfolding Sorted drop_old
Sorted-drop_old window t [] s = tt
Sorted-drop_old window t ((u, r) ∷ ms) (b, s) = elim (Bool-cases (leb (u + window) t)) [
  | inl old ↦ rw old (Sorted-drop_old window t ms s)
  | inr new ↦ rw new (All-drop_old _ window t ms b, Sorted-drop_old window t ms s)
]

before_trans :
    (a b c d e f : ℕ)
    → before (a, b) (c, d) ≡ true
    → before (c, d) (e, f) ≡ true
    → before (a, b) (e, f) ≡ true
before_trans a b c d e f h k = ground (arith, h, k)

-- Neither before nor equal is after.
after_it :
    (t r s q : ℕ)
    → before (t, r) (s, q) ≡ false
    → (s == t && r == q) ≡ false
    → before (s, q) (t, r) ≡ true
after_it t r s q h k = ground (arith, h, k)

pub Sorted-add_member : (t r : ℕ) (ms : List (ℕ × ℕ)) → Sorted ms → Sorted (add_member t r ms)
unfolding Sorted add_member
Sorted-add_member t r [] s = (tt, tt)
Sorted-add_member t r ((u, q) ∷ ms) (b, s) = elim (Bool-cases (before (t, r) (u, q))) [
  | inl first ↦
      rw first ((first, All-map _ _ (λ n h. before_trans t r u q n.0 n.1 first h) ms b), (b, s))
  | inr later ↦ elim (Bool-cases (u == t && r == q)) [
    | inl equal ↦ rw (later, equal) (b, s)
    | inr other ↦
        rw (later, other)
          (All-add_member _ t r ms (after_it t r u q later other) b, Sorted-add_member t r ms s)
  ]
]

has-after :
    (t r : ℕ) (ms : List (ℕ × ℕ)) → All (λ n. before (t, r) n ≡ true) ms → has t r ms ≡ false
has-after t r [] b = refl
has-after t r ((s, q) ∷ ms) (h, b) = ground (arith, h, has-after t r ms b)

-- ZADD of a member that is there changes nothing.
pub add_member-known :
    (t r : ℕ) (ms : List (ℕ × ℕ)) → Sorted ms → has t r ms ≡ true → add_member t r ms ≡ ms
unfolding Sorted add_member
add_member-known t r [] s h = absurd (ground (arith, h))
add_member-known t r ((u, q) ∷ ms) (b, s) h = elim (Bool-cases (before (t, r) (u, q))) [
  | inl first ↦
      let none_later =
        has-after t r ms (All-map _ _ (λ n k. before_trans t r u q n.0 n.1 first k) ms b) in
      absurd (ground (arith, h, first, none_later))
  | inr later ↦ elim (Bool-cases (u == t && r == q)) [
    | inl equal ↦ rw (later, equal) refl
    | inr other ↦
        let rest : has t r ms ≡ true = ground (arith, h, other) in
        rw (later, other) (ap (λ ns. (u, q) ∷ ns) (add_member-known t r ms s rest))
  ]
]

pub has-add_member :
    (u p t r : ℕ) (ms : List (ℕ × ℕ))
    → has u p (add_member t r ms) ≡ ((t == u && r == p) || has u p ms)
unfolding add_member
has-add_member u p t r [] = refl
has-add_member u p t r ((s, q) ∷ ms) = ground (arith, has-add_member u p t r ms)

-- Old members are none of now.
pub has-drop_old :
    (window t u p : ℕ) (ms : List (ℕ × ℕ))
    → 1 ≤ window
    → t ≤ u
    → has u p (drop_old window t ms) ≡ has u p ms
unfolding drop_old
has-drop_old window t u p [] pos later = refl
has-drop_old window t u p ((s, r) ∷ ms) pos later =
    ground (arith, pos, later, has-drop_old window t u p ms pos later)

pub has-dead :
    (window t u p : ℕ) (ms : List (ℕ × ℕ))
    → 1 ≤ window
    → DeadBy window t ms
    → t ≤ u
    → has u p ms ≡ false
has-dead window t u p [] pos dead later = refl
has-dead window t u p ((s, r) ∷ ms) pos (d, dead) later =
    ground (arith, pos, d, later, has-dead window t u p ms pos dead later)

pub has-append :
    (u p t r : ℕ) (ms : List (ℕ × ℕ))
    → has u p (ms ++ (t, r) ∷ []) ≡ ((t == u && r == p) || has u p ms)
has-append u p t r [] = refl
has-append u p t r ((s, q) ∷ ms) = ground (arith, has-append u p t r ms)

pub count-append :
    (window u t r : ℕ) (ms : List (ℕ × ℕ))
    → count window u (ms ++ (t, r) ∷ []) ≡ count window u ((t, r) ∷ ms)
count-append window u t r [] = refl
count-append window u t r ((s, q) ∷ ms) = ground (arith, count-append window u t r ms)
