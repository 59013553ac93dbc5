-- ===== src/Broker/Subscribers/Lifecycle.antt =====
-- No channel is closed twice: what each operation of the broker keeps.
use kakao_relay.Prelude.{
  ℕ, suc, ◌+◌, ◌≤◌, Str, str_eq, true, false, Option, none, some, List, [], ◌∷◌, ◌≡◌, refl, subst,
  arith, Bool-cases, inl, inr, ◌==◌, if◌then◌else◌,
}
use kakao_relay.World.{Event}
use kakao_relay.Broker.Subscribers.{
  Broker, new_broker, clients_of, contains, without, keys_or_none, subscribe, close_done,
  store_clients, drop_client, unsubscribe, broadcast, receive, close_keys, close_all, close,
}
use kakao_relay.Broker.Subscribers.Counting.{
  times, occurs, occurs-set, contains-times, absent, times-cons, occurs-store, times-le-occurs,
  times-dropped,
}

-- A client is registered at most once, and not any more when its Done is closed; clients to come
-- are neither registered nor closed; and nothing was closed twice.
pub record Sound (b : Broker) : Type 0 where
  pub once : (k : ℕ) → occurs k b.clients + times k b.closed ≤ 1
  pub new : (k : ℕ) → b.next_client ≤ k → occurs k b.clients + times k b.closed ≡ 0
  pub calm : b.panicked ≡ false

-- `k` is registered for the account.
abbrev pub Registered : Str → ℕ → Broker → Type 0
Registered id k b = contains k (keys_or_none (clients_of id b.clients)) ≡ true

pub new-Sound : Sound new_broker
unfolding occurs times
new-Sound = record { once = λ k. omega arith; new = λ k h. omega arith; calm = refl }

occurs-subscribe :
    (k : ℕ) (id : Str) (b : Broker)
    → occurs k (subscribe id b).clients
      ≡ (if b.next_client == k then suc (occurs k b.clients) else occurs k b.clients)
unfolding subscribe
occurs-subscribe k id b =
    let old = keys_or_none (clients_of id b.clients) in
    ground (arith, occurs-set k id (b.next_client ∷ old) b.clients, times-cons k b.next_client old)

closed-subscribe : (id : Str) (b : Broker) → (subscribe id b).closed ≡ b.closed
unfolding subscribe
closed-subscribe id b = refl

next-subscribe : (id : Str) (b : Broker) → (subscribe id b).next_client ≡ suc b.next_client
unfolding subscribe
next-subscribe id b = refl

pub subscribe-Sound : (id : Str) (b : Broker) → Sound b → Sound (subscribe id b)
subscribe-Sound id b s = record {
  once = λ k. ground (arith, occurs-subscribe k id b, closed-subscribe id b, s.once k, s.new k);
  new = λ k h.
      ground
        (arith, h, next-subscribe id b, occurs-subscribe k id b, closed-subscribe id b, s.new k);
  calm = unfold subscribe in s.calm;
}

-- After `close_done` of a client that was not closed.
close_done-closed :
    (k : ℕ) (b : Broker)
    → contains k b.closed ≡ false
    → close_done k b ≡ record b { closed = k ∷ b.closed }
close_done-closed k b open' = rw open' refl

dropped-count :
    (id : Str) (k j : ℕ) (ks : List ℕ) (b : Broker)
    → clients_of id b.clients ≡ some ks
    → contains k ks ≡ true
    → occurs j (store_clients id (without k ks) b.clients) + times j (k ∷ b.closed)
      ≤ occurs j b.clients + times j b.closed
dropped-count id k j ks b found here =
    let stored : occurs j (store_clients id (without k ks) b.clients) + times j ks
        ≤ occurs j b.clients + times j (without k ks) =
      subst
        (λ (o : Option (List ℕ)).
          occurs j (store_clients id (without k ks) b.clients) + times j (keys_or_none o)
          ≤ occurs j b.clients + times j (without k ks))
        found (occurs-store j id (without k ks) b.clients) in
    omega (arith, stored, times-dropped k j ks b.closed here)

dropped-Sound :
    (id : Str) (k : ℕ) (ks : List ℕ) (b : Broker)
    → clients_of id b.clients ≡ some ks
    → contains k ks ≡ true
    → Sound b
    → Sound
        (record b { closed = k ∷ b.closed; clients = store_clients id (without k ks) b.clients })
dropped-Sound id k ks b found here s = record {
  once = λ j. omega (arith, dropped-count id k j ks b found here, s.once j);
  new = λ j h. omega (arith, dropped-count id k j ks b found here, s.new j h);
  calm = s.calm;
}

not_closed :
    (id : Str) (k : ℕ) (ks : List ℕ) (b : Broker)
    → clients_of id b.clients ≡ some ks
    → contains k ks ≡ true
    → Sound b
    → contains k b.closed ≡ false
not_closed id k ks b found here s =
    let among : times k ks ≤ occurs k b.clients =
      subst (λ (o : Option (List ℕ)). times k (keys_or_none o) ≤ occurs k b.clients) found
        (times-le-occurs k id b.clients) in
    absent k b.closed (omega (arith, among, contains-times k ks here, s.once k))

drop-Sound :
    (id : Str) (k : ℕ) (o : Option (List ℕ)) (b : Broker)
    → clients_of id b.clients ≡ o
    → contains k (keys_or_none o) ≡ true
    → Sound b
    → Sound (drop_client id k o b)
unfolding drop_client
drop-Sound id k none b found here s = s
drop-Sound id k (some ks) b found here s =
    rw (not_closed id k ks b found here s) (dropped-Sound id k ks b found here s)

pub unsubscribe-Sound :
    (id : Str) (k : ℕ) (b : Broker) → Registered id k b → Sound b → Sound (unsubscribe id k b)
unfolding unsubscribe
unsubscribe-Sound id k b here s = drop-Sound id k (clients_of id b.clients) b refl here s

-- A message touches the queues only.
broadcast-Sound : (id : Str) (e : Event) (b : Broker) → Sound b → Sound (broadcast id e b)
unfolding broadcast
broadcast-Sound id e b s = record { once = s.once; new = s.new; calm = s.calm }

pub receive-Sound :
    (ls : List Str) (id : Str) (e : Event) (b : Broker) → Sound b → Sound (receive ls id e b)
unfolding receive
receive-Sound [] id e b s = s
receive-Sound (l ∷ ls) id e b s = elim (Bool-cases (str_eq l id)) [
  | inl same ↦ rw same (receive-Sound ls id e (broadcast id e b) (broadcast-Sound id e b s))
  | inr other ↦ rw other (receive-Sound ls id e b s)
]

-- `Close` over the clients that are left.
record Closing (cs : List (Str × List ℕ)) (b : Broker) : Type 0 where
  once : (k : ℕ) → occurs k cs + times k b.closed ≤ 1
  new : (k : ℕ) → b.next_client ≤ k → occurs k cs + times k b.closed ≡ 0
  calm : b.panicked ≡ false

Closing-absent :
    (id : Str) (k : ℕ) (ks : List ℕ) (cs : List (Str × List ℕ)) (b : Broker)
    → Closing ((id, k ∷ ks) ∷ cs) b
    → times k b.closed ≡ 0
unfolding occurs times
Closing-absent id k ks cs b c = ground (arith, c.once k)

Closing-keys :
    (id : Str) (ks : List ℕ) (cs : List (Str × List ℕ)) (b : Broker)
    → Closing ((id, ks) ∷ cs) b
    → Closing cs (close_keys ks b)
unfolding close_keys occurs times
Closing-keys id [] cs b c = record {
  once = λ k. omega (arith, c.once k);
  new = λ k h. omega (arith, c.new k h);
  calm = c.calm;
}
Closing-keys id (k ∷ ks) cs b c =
    let open' : contains k b.closed ≡ false = absent k b.closed (Closing-absent id k ks cs b c) in
    rw (close_done-closed k b open') (
      Closing-keys id ks cs (record b { closed = k ∷ b.closed })
        (record {
          once = λ j. ground (arith, c.once j);
          new = λ j h. ground (arith, c.new j h);
          calm = c.calm;
        }))

Closing-all : (cs : List (Str × List ℕ)) (b : Broker) → Closing cs b → Closing [] (close_all cs b)
unfolding close_all
Closing-all [] b c = c
Closing-all ((id, ks) ∷ cs) b c = Closing-all cs (close_keys ks b) (Closing-keys id ks cs b c)

pub close-Sound : (b : Broker) → Sound b → Sound (close b)
unfolding close
close-Sound b s =
    let c = Closing-all b.clients b (record { once = s.once; new = s.new; calm = s.calm }) in
    record { once = c.once; new = λ k h. c.new k h; calm = c.calm }
