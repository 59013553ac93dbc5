-- ===== src/Broker/Subscribers/Duplicates.antt =====
-- The listeners that reconnecting leaves behind.
use kakao_relay.Prelude.{
  ℕ, zero, suc, ◌+◌, ◌≤◌, ◌<◌, Str, str_eq_refl, Option, none, some, List, [], ◌∷◌, ◌++◌, ◌≡◌, refl,
  sym, ap, subst, ◌∙◌, arith, same_number, length, length-append,
}
use kakao_relay.World.{Event}
use kakao_relay.Broker.Subscribers.{
  Broker, new_broker, clients_of, set_clients, remove_clients, without, subscribe, unsubscribe,
  drop_client, offer_all, broadcast, receive, on_message, buffer_size,
}

-- `n` connections of an account, one after the other, each closed before the next.
pub reconnects : ℕ → Str → Broker → Broker
reconnects zero id b = b
reconnects (suc n) id b =
    let b' = reconnects n id b in unsubscribe id b'.next_client (subscribe id b')

copies : ℕ → Str → List Str
copies zero s = []
copies (suc n) s = s ∷ copies n s

copies-append : (n : ℕ) (s : Str) → copies n s ++ s ∷ [] ≡ copies (suc n) s
unfolding copies
copies-append zero s = refl
copies-append (suc n) s = ap (λ ss. s ∷ ss) (copies-append n s)

-- What `n` reconnections leave.
record Idle (n : ℕ) (id : Str) (b : Broker) : Type 0 where
  clients : b.clients ≡ []
  next : b.next_client ≡ n
  listeners : b.listeners ≡ copies n id
  queues : (k : ℕ) → b.queues k ≡ []

subscribe-first :
    (id : Str) (b : Broker)
    → b.clients ≡ []
    → subscribe id b ≡ record b {
      clients = (id, b.next_client ∷ []) ∷ [];
      listeners = b.listeners ++ id ∷ [];
      next_client = suc b.next_client;
    }
unfolding subscribe clients_of set_clients
subscribe-first id b none_yet = rw none_yet refl

without-single : (k : ℕ) → without k (k ∷ []) ≡ []
unfolding without
without-single k = ground arith

remove-single : (id : Str) (ks : List ℕ) → remove_clients id ((id, ks) ∷ []) ≡ []
unfolding remove_clients
remove-single id ks = rw (str_eq_refl id) refl

drop-last :
    (id : Str) (k : ℕ) (b : Broker)
    → b.clients ≡ (id, k ∷ []) ∷ []
    → (drop_client id k (some (k ∷ [])) b).clients ≡ []
unfolding drop_client
drop-last id k b single = rw (without-single k, single, remove-single id (k ∷ [])) refl

drop-others :
    (id : Str) (k : ℕ) (o : Option (List ℕ)) (b : Broker)
    → ((drop_client id k o b).next_client ≡ b.next_client)
      × ((drop_client id k o b).listeners ≡ b.listeners)
      × ((drop_client id k o b).queues ≡ b.queues)
unfolding drop_client
drop-others id k none b = (refl, refl, refl)
drop-others id k (some ks) b = ground arith

clients_of-single : (id : Str) (ks : List ℕ) → clients_of id ((id, ks) ∷ []) ≡ some ks
unfolding clients_of
clients_of-single id ks = rw (str_eq_refl id) refl

step-Idle :
    (n : ℕ) (id : Str) (b : Broker)
    → Idle n id b
    → Idle (suc n) id (unsubscribe id b.next_client (subscribe id b))
unfolding unsubscribe copies
step-Idle n id b i =
    let k = b.next_client in
    let b' = record b {
      clients = (id, k ∷ []) ∷ [];
      listeners = b.listeners ++ id ∷ [];
      next_client = suc k;
    } in
    let (next, listeners, queues) = drop-others id k (some (k ∷ [])) b' in
    subst (Idle (suc n) id) (sym (dropped id k b i.clients)) (record {
      clients = drop-last id k b' refl;
      next = next ∙ ap suc i.next;
      listeners = listeners ∙ ap (λ ls. ls ++ id ∷ []) i.listeners ∙ copies-append n id;
      queues = λ j. ap (λ qs. qs j) queues ∙ i.queues j;
    })
  where
    dropped :
        (id : Str) (k : ℕ) (b : Broker)
        → b.clients ≡ []
        → unsubscribe id k (subscribe id b)
          ≡ drop_client id k (some (b.next_client ∷ [])) (record b {
            clients = (id, b.next_client ∷ []) ∷ [];
            listeners = b.listeners ++ id ∷ [];
            next_client = suc b.next_client;
          })
    dropped id k b none_yet =
        rw (subscribe-first id b none_yet, clients_of-single id (b.next_client ∷ [])) refl

reconnects-Idle : (n : ℕ) (id : Str) → Idle n id (reconnects n id new_broker)
unfolding reconnects copies
reconnects-Idle zero id = record {
  clients = refl;
  next = refl;
  listeners = refl;
  queues = λ k. refl;
}
reconnects-Idle (suc n) id = step-Idle n id (reconnects n id new_broker) (reconnects-Idle n id)

-- The same event, `n` times.
pub events : ℕ → Event → List Event
events zero e = []
events (suc n) e = events n e ++ e ∷ []

length-events : (n : ℕ) (e : Event) → length (events n e) ≡ n
unfolding events
length-events zero e = refl
length-events (suc n) e = ground (arith, length-events n e, length-append (events n e) (e ∷ []))

-- One client of the account, with a queue.
record Serves (k : ℕ) (id : Str) (q : List Event) (b : Broker) : Type 0 where
  clients : b.clients ≡ (id, k ∷ []) ∷ []
  queue : b.queues k ≡ q

broadcast-Serves :
    (k n : ℕ) (id : Str) (e : Event) (b : Broker)
    → n < buffer_size
    → Serves k id (events n e) b
    → Serves k id (events (suc n) e) (broadcast id e b)
unfolding broadcast clients_of offer_all events
broadcast-Serves k n id e b small s = record {
  clients = s.clients;
  queue =
      rw (s.clients, str_eq_refl id, same_number k, s.queue) (ground (arith, length-events n e));
}

receive-same :
    (ls : List Str) (id : Str) (e : Event) (b : Broker)
    → receive (id ∷ ls) id e b ≡ receive ls id e (broadcast id e b)
unfolding receive
receive-same ls id e b = rw (str_eq_refl id) refl

receive-Serves :
    (m k n : ℕ) (id : Str) (e : Event) (b : Broker)
    → m + n ≤ buffer_size
    → Serves k id (events n e) b
    → Serves k id (events (m + n) e) (receive (copies m id) id e b)
unfolding receive copies
receive-Serves zero k n id e b small s = subst (λ j. Serves k id (events j e) b) (omega arith) s
receive-Serves (suc m) k n id e b small s =
    let served =
      receive-Serves m k (suc n) id e (broadcast id e b) (omega arith)
        (broadcast-Serves k n id e b (omega arith) s) in
    let same : m + suc n ≡ suc m + n = omega arith in
    subst (Serves k id (events (suc m + n) e)) (sym (receive-same (copies m id) id e b)) (
      subst (λ j. Serves k id (events j e) (receive (copies m id) id e (broadcast id e b))) same
        served)

first-Serves :
    (n : ℕ) (id : Str) (e : Event) (b : Broker)
    → Idle n id b
    → Serves n id (events 0 e) (subscribe id b)
unfolding events
first-Serves n id e b i =
    rw (subscribe-first id b i.clients) (record { clients = rw i.next refl; queue = i.queues n })

first-listeners :
    (n : ℕ) (id : Str) (b : Broker) → Idle n id b → (subscribe id b).listeners ≡ copies (suc n) id
first-listeners n id b i =
    rw (subscribe-first id b i.clients) (ap (λ ls. ls ++ id ∷ []) i.listeners ∙ copies-append n id)

on_message-Serves :
    (n : ℕ) (id : Str) (e : Event) (b : Broker)
    → n < buffer_size
    → Idle n id b
    → (on_message id e (subscribe id b)).queues n ≡ events (suc n) e
unfolding on_message
on_message-Serves n id e b small i =
    let served =
      receive-Serves (suc n) n 0 id e (subscribe id b) (omega arith) (first-Serves n id e b i) in
    let all : suc n + 0 ≡ suc n = omega arith in
    ap (λ ls. (receive ls id e (subscribe id b)).queues n) (first-listeners n id b i)
    ∙ served.queue
    ∙ ap (λ j. events j e) all

-- After `n` connections that were closed again, less than a hundred, an event for the account
-- is put `n + 1` times into the queue of its only client.
pub on_message-duplicates :
    (n : ℕ) (id : Str) (e : Event)
    → n < buffer_size
    → (on_message id e (subscribe id (reconnects n id new_broker))).queues n ≡ events (suc n) e
on_message-duplicates n id e small =
    on_message-Serves n id e (reconnects n id new_broker) small (reconnects-Idle n id)
