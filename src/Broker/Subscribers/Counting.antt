-- ===== src/Broker/Subscribers/Counting.antt =====
-- How often a client is registered or closed.
use kakao_relay.Prelude.{
  ℕ, suc, ◌+◌, ◌≤◌, Str, true, false, List, [], ◌∷◌, ◌≡◌, refl, arith, ◌==◌, if◌then◌else◌,
}
use kakao_relay.Broker.Subscribers.{
  clients_of, set_clients, remove_clients, contains, without, keys_or_none, store_clients,
}

-- How often a client is registered, over all accounts.
unfoldable pub times : ℕ → List ℕ → ℕ
times k [] = 0
times k (x ∷ xs) = let rest = times k xs in if x == k then suc rest else rest

unfoldable pub occurs : ℕ → List (Str × List ℕ) → ℕ
occurs k [] = 0
occurs k ((id, ks) ∷ rest) = times k ks + occurs k rest

pub occurs-set :
    (k : ℕ) (id : Str) (ks : List ℕ) (cs : List (Str × List ℕ))
    → occurs k (set_clients id ks cs) + times k (keys_or_none (clients_of id cs))
      ≡ occurs k cs + times k ks
unfolding occurs set_clients clients_of times
occurs-set k id ks [] = omega arith
occurs-set k id ks ((a, old) ∷ rest) = ground (arith, occurs-set k id ks rest)

pub occurs-remove :
    (k : ℕ) (id : Str) (cs : List (Str × List ℕ))
    → occurs k (remove_clients id cs) + times k (keys_or_none (clients_of id cs)) ≤ occurs k cs
unfolding occurs remove_clients clients_of times
occurs-remove k id [] = omega arith
occurs-remove k id ((a, old) ∷ rest) = ground (arith, occurs-remove k id rest)

pub times-without :
    (k j : ℕ) (ks : List ℕ) → times k (without j ks) ≡ (if j == k then 0 else times k ks)
unfolding times without
times-without k j [] = ground arith
times-without k j (x ∷ ks) = ground (arith, times-without k j ks)

pub contains-times : (k : ℕ) (ks : List ℕ) → contains k ks ≡ true → 1 ≤ times k ks
unfolding times
contains-times k [] h = cc
contains-times k (x ∷ ks) h = ground (arith, contains-times k ks)

pub absent : (k : ℕ) (ks : List ℕ) → times k ks ≡ 0 → contains k ks ≡ false
unfolding times
absent k [] h = refl
absent k (x ∷ ks) h = ground (arith, absent k ks)

pub times-cons :
    (k j : ℕ) (ks : List ℕ) → times k (j ∷ ks) ≡ (if j == k then suc (times k ks) else times k ks)
unfolding times
times-cons k j ks = refl

pub occurs-store :
    (k : ℕ) (id : Str) (ks : List ℕ) (cs : List (Str × List ℕ))
    → occurs k (store_clients id ks cs) + times k (keys_or_none (clients_of id cs))
      ≤ occurs k cs + times k ks
occurs-store k id [] cs = omega (arith, occurs-remove k id cs)
occurs-store k id (j ∷ ks) cs = omega (arith, occurs-set k id (j ∷ ks) cs)

-- The account's registered clients are among all.
pub times-le-occurs :
    (k : ℕ) (id : Str) (cs : List (Str × List ℕ))
    → times k (keys_or_none (clients_of id cs)) ≤ occurs k cs
times-le-occurs k id cs = omega (arith, occurs-remove k id cs)

pub times-dropped :
    (k j : ℕ) (ks closed : List ℕ)
    → contains k ks ≡ true
    → times j (without k ks) + times j (k ∷ closed) ≤ times j ks + times j closed
times-dropped k j ks closed here =
    ground (arith, times-without j k ks, times-cons j k closed, contains-times k ks here)
