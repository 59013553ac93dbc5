-- ===== src/Broker/Subscribers.antt =====
-- internal/sse/broker.go: the subscribers of this server. A client is a key; `queues` holds what
-- waits in the channel of each client ever made, `closed` the clients whose Done was closed, and
-- `listeners` the account of each goroutine that runs `subscribeToRedis`.
pub mod Duplicates
pub mod Counting
pub mod Lifecycle
pub mod Connections
use kakao_relay.Prelude.{
  ℕ, suc, ◌+◌, Str, str_eq, Bool, true, false, Option, none, some, List, [], ◌∷◌, ◌++◌, ltb, ◌==◌,
  if◌then◌else◌, length,
}
use kakao_relay.World.{Event}

pub record Broker : Type 0 where
  pub clients : List (Str × List ℕ)
  pub queues : ℕ → List Event
  pub closed : List ℕ
  pub listeners : List Str
  pub next_client : ℕ
  pub panicked : Bool

-- `NewBroker`
abbrev pub new_broker : Broker
new_broker = record {
  clients = [];
  queues = λ _. [];
  closed = [];
  listeners = [];
  next_client = 0;
  panicked = false;
}

-- `b.clients[accountID]`
unfoldable pub clients_of : Str → List (Str × List ℕ) → Option (List ℕ)
clients_of id [] = none
clients_of id ((a, ks) ∷ rest) = if str_eq a id then some ks else clients_of id rest

unfoldable pub set_clients : Str → List ℕ → List (Str × List ℕ) → List (Str × List ℕ)
set_clients id ks [] = (id, ks) ∷ []
set_clients id ks ((a, old) ∷ rest) =
    if str_eq a id then (id, ks) ∷ rest else (a, old) ∷ set_clients id ks rest

unfoldable pub remove_clients : Str → List (Str × List ℕ) → List (Str × List ℕ)
remove_clients id [] = []
remove_clients id ((a, old) ∷ rest) =
    let others = remove_clients id rest in if str_eq a id then others else (a, old) ∷ others

abbrev pub contains : ℕ → List ℕ → Bool
contains k [] = false
contains k (x ∷ xs) = if x == k then true else contains k xs

unfoldable pub without : ℕ → List ℕ → List ℕ
without k [] = []
without k (x ∷ xs) = let rest = without k xs in if x == k then rest else x ∷ rest

abbrev pub listens : Option (List ℕ) → Str → List Str → List Str
listens none id ls = ls ++ id ∷ []
listens (some _) id ls = ls

abbrev pub keys_or_none : Option (List ℕ) → List ℕ
keys_or_none none = []
keys_or_none (some ks) = ks

-- `Subscribe`: the first client of an account starts a goroutine.
unfoldable pub subscribe : Str → Broker → Broker
unfolding clients_of set_clients
subscribe id b =
    let old = clients_of id b.clients in
    record b {
      clients = set_clients id (b.next_client ∷ keys_or_none old) b.clients;
      listeners = listens old id b.listeners;
      next_client = suc b.next_client;
    }

-- `close(client.Done)`: a second close panics.
abbrev pub close_done : ℕ → Broker → Broker
close_done k b =
    if contains k b.closed then record b { panicked = true } else record b { closed = k ∷ b.closed }

abbrev pub store_clients : Str → List ℕ → List (Str × List ℕ) → List (Str × List ℕ)
store_clients id [] cs = remove_clients id cs
store_clients id (k ∷ ks) cs = set_clients id (k ∷ ks) cs

unfoldable pub drop_client : Str → ℕ → Option (List ℕ) → Broker → Broker
unfolding without remove_clients set_clients
drop_client id k none b = b
drop_client id k (some ks) b = record (close_done k b) {
  clients = store_clients id (without k ks) b.clients;
}

-- `Unsubscribe`: the account's goroutine is left running.
unfoldable pub unsubscribe : Str → ℕ → Broker → Broker
unfolding drop_client clients_of
unsubscribe id k b = drop_client id k (clients_of id b.clients) b

abbrev pub buffer_size : ℕ
buffer_size = 100

-- A send that does not block: a full buffer drops the event.
abbrev pub offer : Event → List Event → List Event
offer e q = if ltb (length q) buffer_size then q ++ e ∷ [] else q

abbrev pub offer_to : ℕ → Event → (ℕ → List Event) → ℕ → List Event
offer_to k e qs j = if k == j then offer e (qs j) else qs j

unfoldable pub offer_all : List ℕ → Event → (ℕ → List Event) → ℕ → List Event
offer_all [] e qs = qs
offer_all (k ∷ ks) e qs = offer_all ks e (offer_to k e qs)

-- `broadcast`
unfoldable pub broadcast : Str → Event → Broker → Broker
unfolding clients_of offer_all
broadcast id e b = record b {
  queues = offer_all (keys_or_none (clients_of id b.clients)) e b.queues;
}

-- A message on an account's channel reaches every goroutine that listens to it.
unfoldable pub receive : List Str → Str → Event → Broker → Broker
receive [] id e b = b
receive (l ∷ ls) id e b = receive ls id e (if str_eq l id then broadcast id e b else b)

unfoldable pub on_message : Str → Event → Broker → Broker
unfolding receive
on_message id e b = receive b.listeners id e b

unfoldable pub close_keys : List ℕ → Broker → Broker
close_keys [] b = b
close_keys (k ∷ ks) b = close_keys ks (close_done k b)

unfoldable pub close_all : List (Str × List ℕ) → Broker → Broker
unfolding close_keys
close_all [] b = b
close_all ((id, ks) ∷ rest) b = close_all rest (close_keys ks b)

-- `Close`: the goroutines end, every client's Done is closed, and the map is emptied.
unfoldable pub close : Broker → Broker
unfolding close_all
close b = record (close_all b.clients b) { clients = []; listeners = [] }

-- `ClientCount` and `TotalClients`
unfoldable pub client_count : Str → Broker → ℕ
unfolding clients_of
client_count id b = length (keys_or_none (clients_of id b.clients))

abbrev pub total : List (Str × List ℕ) → ℕ
total [] = 0
total ((id, ks) ∷ rest) = length ks + total rest

unfoldable pub total_clients : Broker → ℕ
total_clients b = total b.clients
