-- ===== src/Broker/Subscribers/Connections.antt =====
-- internal/handler/events.go over internal/sse/broker.go: a connection subscribes once and, when its
-- handler returns, unsubscribes once, be the broker closed by then or not. In cmd/server/main.go the
-- broker is closed after the server was shut down, when no connection is taken any more.
use kakao_relay.Prelude.{
  ℕ, Str, str_eq, str_eq_iff, str_eq_refl, Bool, true, false, not, Option, none, some, List, [],
  ◌∷◌, ◌≡◌, refl, sym, ap, subst, ◌∙◌, ◌&&◌, arith, Bool-cases, inl, inr, ◌==◌, if◌then◌else◌, All,
  select,
}
use kakao_relay.World.{Event}
use kakao_relay.Broker.Subscribers.{
  Broker, new_broker, clients_of, set_clients, remove_clients, contains, without, keys_or_none,
  subscribe, store_clients, drop_client, unsubscribe, broadcast, receive, on_message, close,
}
use kakao_relay.Broker.Subscribers.Lifecycle.{
  Sound, Registered, new-Sound, subscribe-Sound, unsubscribe-Sound, receive-Sound, close-Sound,
}

-- The broker, the connections whose handler has not returned, and whether `Close` was called.
pub record Serving : Type 0 where
  pub broker : Broker
  pub open_ : List (Str × ℕ)
  pub closing : Bool

abbrev pub new_serving : Serving
new_serving = record { broker = new_broker; open_ = []; closing = false }

-- `client := Subscribe(id)`
abbrev pub connected : Str → Serving → Serving
connected id s = record s {
  broker = subscribe id s.broker;
  open_ = (id, s.broker.next_client) ∷ s.open_;
}

-- The deferred `Unsubscribe` of a connection.
abbrev pub disconnected : Str → ℕ → Serving → Serving
disconnected id k s = record s {
  broker = unsubscribe id k s.broker;
  open_ = select (λ c. not (c.1 == k)) s.open_;
}

-- The client `k` of the account is an open connection.
abbrev pub is_open : Str → ℕ → List (Str × ℕ) → Bool
is_open id k [] = false
is_open id k ((a, j) ∷ rest) = if str_eq a id && j == k then true else is_open id k rest

pub data Step : Serving → Serving → Type 0 where
  connects : {s : Serving} (id : Str) → s.closing ≡ false → Step s (connected id s)
  disconnects :
      {s : Serving} (id : Str) (k : ℕ) → is_open id k s.open_ ≡ true → Step s (disconnected id k s)
  receives :
      {s : Serving} (id : Str) (e : Event) → Step s (record s { broker = on_message id e s.broker })
  closes : {s : Serving} → Step s (record s { broker = close s.broker; closing = true })

pub data Reachable : Serving → Type 0 where
  start : Reachable new_serving
  then_step : {s t : Serving} → Reachable s → Step s t → Reachable t

-- Before `Close`, every open connection is registered; afterwards nothing is.
record Held (s : Serving) : Type 0 where
  sound : Sound s.broker
  live : s.closing ≡ false → All (λ (c : Str × ℕ). Registered c.0 c.1 s.broker) s.open_
  shut : s.closing ≡ true → s.broker.clients ≡ []

clients_of-set :
    (id a : Str) (ks : List ℕ) (cs : List (Str × List ℕ))
    → clients_of a (set_clients id ks cs) ≡ (if str_eq id a then some ks else clients_of a cs)
unfolding clients_of set_clients
clients_of-set id a ks [] = refl
clients_of-set id a ks ((b, old) ∷ rest) =
    ground (arith, str_eq_iff b id, str_eq_iff b a, str_eq_iff id a, clients_of-set id a ks rest)

clients_of-remove :
    (id a : Str) (cs : List (Str × List ℕ))
    → str_eq id a ≡ false
    → clients_of a (remove_clients id cs) ≡ clients_of a cs
unfolding clients_of remove_clients
clients_of-remove id a [] other = refl
clients_of-remove id a ((b, old) ∷ rest) other = ground (
  arith,
  other,
  str_eq_iff b id,
  str_eq_iff b a,
  str_eq_iff id a,
  clients_of-remove id a rest other,
)

contains-without :
    (j k : ℕ) (ks : List ℕ)
    → (j == k) ≡ false
    → contains j ks ≡ true
    → contains j (without k ks) ≡ true
unfolding without
contains-without j k [] other h = h
contains-without j k (x ∷ ks) other h = ground (arith, h, other, contains-without j k ks other)

module _ (a : Str) (j : ℕ) where
  abbrev Listed : List (Str × List ℕ) → Type 0
  Listed cs = contains j (keys_or_none (clients_of a cs)) ≡ true

  Listed-set :
      (id : Str) (ks : List ℕ) (cs : List (Str × List ℕ))
      → (str_eq id a ≡ true → contains j ks ≡ true)
      → Listed cs
      → Listed (set_clients id ks cs)
  Listed-set id ks cs there h =
      rw (clients_of-set id a ks cs) (elim (Bool-cases (str_eq id a)) [
        | inl same ↦ rw same (there same)
        | inr other ↦ rw other h
      ])

  Listed-store :
      (id : Str) (ks : List ℕ) (cs : List (Str × List ℕ))
      → (str_eq id a ≡ true → contains j ks ≡ true)
      → Listed cs
      → Listed (store_clients id ks cs)
  Listed-store id [] cs there h = elim (Bool-cases (str_eq id a)) [
    | inl same ↦ absurd (ground (arith, there same))
    | inr other ↦ rw (clients_of-remove id a cs other) h
  ]
  Listed-store id (k ∷ ks) cs there h = Listed-set id (k ∷ ks) cs there h

  at_account :
      (id : Str) (cs : List (Str × List ℕ))
      → str_eq id a ≡ true
      → Listed cs
      → contains j (keys_or_none (clients_of id cs)) ≡ true
  at_account id cs same h =
      subst (λ i. contains j (keys_or_none (clients_of i cs)) ≡ true)
        (sym ((str_eq_iff id a).0 same)) h

  more : (n : ℕ) (ks : List ℕ) → contains j ks ≡ true → contains j (n ∷ ks) ≡ true
  more n ks h = ground (arith, h)

  -- A new client leaves the others registered.
  registered-subscribe :
      (id : Str) (b : Broker) → Registered a j b → Registered a j (subscribe id b)
  unfolding subscribe
  registered-subscribe id b h =
      Listed-set id (b.next_client ∷ keys_or_none (clients_of id b.clients)) b.clients
        (λ same. more b.next_client _ (at_account id b.clients same h)) h

  -- So does the end of another one.
  registered-drop :
      (id : Str) (k : ℕ) (o : Option (List ℕ)) (b : Broker)
      → clients_of id b.clients ≡ o
      → (j == k) ≡ false
      → Registered a j b
      → Registered a j (drop_client id k o b)
  unfolding drop_client
  registered-drop id k none b found other h = h
  registered-drop id k (some ks) b found other h =
      Listed-store id (without k ks) b.clients
        (λ same. contains-without j k ks other (
          subst (λ (o : Option (List ℕ)). contains j (keys_or_none o) ≡ true) found
            (at_account id b.clients same h)))
        h

  registered-unsubscribe :
      (id : Str) (k : ℕ) (b : Broker)
      → (j == k) ≡ false
      → Registered a j b
      → Registered a j (unsubscribe id k b)
  unfolding unsubscribe
  registered-unsubscribe id k b other h =
      registered-drop id k (clients_of id b.clients) b refl other h

new-registered : (id : Str) (b : Broker) → Registered id b.next_client (subscribe id b)
unfolding subscribe
new-registered id b =
    rw
      (
        clients_of-set id id (b.next_client ∷ keys_or_none (clients_of id b.clients)) b.clients,
        str_eq_refl id,
      )
      (ground arith)

abbrev RegisteredIn : Broker → List (Str × ℕ) → Type 0
RegisteredIn b cs = All (λ (c : Str × ℕ). Registered c.0 c.1 b) cs

all-subscribe :
    (id : Str) (b : Broker) (cs : List (Str × ℕ))
    → RegisteredIn b cs
    → RegisteredIn (subscribe id b) cs
all-subscribe id b [] h = tt
all-subscribe id b ((a, j) ∷ cs) (h, hs) =
    (registered-subscribe a j id b h, all-subscribe id b cs hs)

all-unsubscribe :
    (id : Str) (k : ℕ) (b : Broker) (cs : List (Str × ℕ))
    → RegisteredIn b cs
    → RegisteredIn (unsubscribe id k b) (select (λ c. not (c.1 == k)) cs)
unfolding select
all-unsubscribe id k b [] h = tt
all-unsubscribe id k b ((a, j) ∷ cs) (h, hs) = elim (Bool-cases (j == k)) [
  | inl same ↦ rw same (all-unsubscribe id k b cs hs)
  | inr other ↦ rw other (registered-unsubscribe a j id k b other h, all-unsubscribe id k b cs hs)
]

open-registered :
    (id : Str) (k : ℕ) (b : Broker) (cs : List (Str × ℕ))
    → is_open id k cs ≡ true
    → RegisteredIn b cs
    → Registered id k b
open-registered id k b [] here h = absurd (ground (arith, here))
open-registered id k b ((a, j) ∷ cs) here (h, hs) = elim (Bool-cases (str_eq a id && j == k)) [
  | inl this ↦
      subst (λ i. Registered i k b) ((str_eq_iff a id).0 (ground (arith, this)))
        (subst (λ n. Registered a n b) (omega (arith, key_eq j k (ground (arith, this)))) h)
  | inr other ↦ open-registered id k b cs (ground (arith, here, other)) hs
]
  where
    key_eq : (j k : ℕ) → (j == k) ≡ true → j ≡ k
    key_eq j k h = ground (arith, h)

clients-receive :
    (ls : List Str) (id : Str) (e : Event) (b : Broker) → (receive ls id e b).clients ≡ b.clients
unfolding receive broadcast
clients-receive [] id e b = refl
clients-receive (l ∷ ls) id e b =
    clients-receive ls id e (if str_eq l id then broadcast id e b else b) ∙ ground arith

-- A connection that ends after `Close` finds no clients of its account.
unsubscribe-closed : (id : Str) (k : ℕ) (b : Broker) → b.clients ≡ [] → unsubscribe id k b ≡ b
unfolding unsubscribe drop_client clients_of
unsubscribe-closed id k b none_left = ap (λ cs. drop_client id k (clients_of id cs) b) none_left

disconnects-Held :
    (id : Str) (k : ℕ) (s : Serving)
    → is_open id k s.open_ ≡ true
    → Held s
    → Held (disconnected id k s)
disconnects-Held id k s here h = elim (Bool-cases s.closing) [
  | inr up ↦
      let there = open-registered id k s.broker s.open_ here (h.live up) in
      record {
        sound = unsubscribe-Sound id k s.broker there h.sound;
        live = λ u. all-unsubscribe id k s.broker s.open_ (h.live u);
        shut = λ down. absurd (ground (arith, up, down));
      }
  | inl down ↦
      let same = unsubscribe-closed id k s.broker (h.shut down) in
      record {
        sound = subst Sound (sym same) h.sound;
        live = λ up. absurd (ground (arith, up, down));
        shut = λ d. ap (λ (b : Broker). b.clients) same ∙ h.shut d;
      }
]

Step-Held : {s t : Serving} → Step s t → Held s → Held t
unfolding on_message
Step-Held {s} (connects id up) h = record {
  sound = subscribe-Sound id s.broker h.sound;
  live = λ u. (new-registered id s.broker, all-subscribe id s.broker s.open_ (h.live u));
  shut = λ down. absurd (ground (arith, up, down));
}
Step-Held {s} (disconnects id k here) h = disconnects-Held id k s here h
Step-Held {s} (receives id e) h =
    let same = clients-receive s.broker.listeners id e s.broker in
    record {
      sound = receive-Sound s.broker.listeners id e s.broker h.sound;
      live = λ u.
          subst
            (λ cs.
              All (λ (c : Str × ℕ). contains c.1 (keys_or_none (clients_of c.0 cs)) ≡ true) s.open_)
            (sym same) (h.live u);
      shut = λ down. same ∙ h.shut down;
    }
Step-Held {s} closes h = record {
  sound = close-Sound s.broker h.sound;
  live = λ up. absurd (ground (arith, up));
  shut = λ down. closed_clients s.broker;
}
  where
    closed_clients : (b : Broker) → (close b).clients ≡ []
    closed_clients b = unfold close in refl

Reachable-Held : (s : Serving) → Reachable s → Held s
Reachable-Held s start = record {
  sound = new-Sound;
  live = λ u. tt;
  shut = λ down. absurd (ground (arith, down));
}
Reachable-Held t (then_step r s) = Step-Held s (Reachable-Held _ r)

-- Let connections be opened until the broker is closed, and let each be ended once, before or after
-- that; let messages come and the broker be closed at any time. Then a client is registered at most
-- once and not after its Done was closed, clients to come are neither registered nor closed, and no
-- channel is closed twice, so that nothing panics.
pub Reachable-Sound : (s : Serving) → Reachable s → Sound s.broker
Reachable-Sound s r = (Reachable-Held s r).sound
