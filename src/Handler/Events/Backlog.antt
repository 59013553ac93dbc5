-- ===== src/Handler/Events/Backlog.antt =====
-- The whole world after the backlog of an account, and a message of it.
use kakao_relay.Prelude.{
  ℕ, Str, Bool, true, false, ◌&&◌, none, some, List, [], ◌∷◌, ◌++◌, ◌≡◌, refl, sym, ap, subst, ◌∙◌,
  arith, ◌⊎◌, inl, inr, find_where, select, order_by, insert_by, if◌then◌else◌,
  find_where-update_where, Bool-cases, leb, str_eq_refl,
}
use kakao_relay.Model.{InboundMessage, is_queued}
use kakao_relay.World.{Database, World, next, after}
use kakao_relay.Repository.Query.{exec_context}
use kakao_relay.Repository.Query.Cases.{select_context-Answers}
use kakao_relay.Repository.Inbound
use kakao_relay.Repository.Inbound.{queued_of, has_id, of_account, set_delivered}
use kakao_relay.Service.Message.{find_queued_by_account_id, mark_delivered}
use kakao_relay.Handler.Kakao.{message_event}
use kakao_relay.Handler.Events.{
  Frame, Writer, send_raw_event, send_messages, send_found, send_queued_messages,
}
use kakao_relay.Handler.Events.Delivery.{
  NoFaults, frames, delivered_rows, one, send_raw_event-Wrote, send_messages-step,
}

-- The world in which some messages have been marked as delivered, and no call fails.
abbrev pub delivered_world : List InboundMessage → World → World
delivered_world ms w = record w {
  db_faults = [];
  db = record w.db { inbound = delivered_rows w.now ms w.db.inbound };
}

mark_delivered-world :
    (m : InboundMessage) (w : World)
    → w.db_faults ≡ []
    → (mark_delivered m.id w).1 ≡ delivered_world (m ∷ []) w
unfolding mark_delivered Inbound.mark_delivered Inbound.update_messages exec_context delivered_rows
mark_delivered-world m w none_left = ground (arith, none_left)

send_messages-world :
    (ms : List InboundMessage) (out : Writer) (w : World)
    → NoFaults w out
    → (send_messages ms out w).2 ≡ delivered_world ms w
unfolding send_messages delivered_rows
send_messages-world [] out w (db_ok, out_ok) = ap (λ fs. record w { db_faults = fs }) db_ok
send_messages-world (m ∷ ms) out w (db_ok, out_ok) =
    let sent = send_raw_event-Wrote m out out_ok in
    let out' = (send_raw_event (message_event m) out).1 in
    let marked = mark_delivered-world m w db_ok in
    ap (λ sent. sent.2) (send_messages-step m ms out w sent.ends)
    ∙ send_messages-world ms out' (mark_delivered m.id w).1
        (ap (λ (v : World). v.db_faults) marked, sent.faults)
    ∙ ap (delivered_world ms) marked

-- Without faults, the delivery of the backlog marks the account's queued messages and changes
-- nothing else.
pub send_queued_messages-world :
    (id : Str) (out : Writer) (w : World)
    → NoFaults w out
    → (send_queued_messages id out w).2 ≡ delivered_world (queued_of id w.db) w
unfolding send_queued_messages send_found find_queued_by_account_id
    Inbound.find_queued_by_account_id
send_queued_messages-world id out w (db_ok, out_ok) =
    ap (λ o. (send_found o out).2)
      (select_context-Answers (λ v. queued_of id v.db) w (ap (λ fs. (next none fs).0) db_ok))
    ∙ send_messages-world (queued_of id w.db) out (after w)
        (ap (λ fs. (next none fs).1) db_ok, out_ok)

-- What a reply reads of a message is the same.
pub record SameOrigin (m m' : InboundMessage) : Type 0 where
  pub account_id : m'.account_id ≡ m.account_id
  pub callback_url : m'.callback_url ≡ m.callback_url
  pub callback_expires_at : m'.callback_expires_at ≡ m.callback_expires_at

marked-SameOrigin :
    (b : Bool) (now : ℕ) (m : InboundMessage) → SameOrigin m (if b then set_delivered now m else m)
marked-SameOrigin true now m = record {
  account_id = refl;
  callback_url = refl;
  callback_expires_at = refl;
}
marked-SameOrigin false now m = record {
  account_id = refl;
  callback_url = refl;
  callback_expires_at = refl;
}

SameOrigin-trans : (a b c : InboundMessage) → SameOrigin a b → SameOrigin b c → SameOrigin a c
SameOrigin-trans a b c s t = record {
  account_id = t.account_id ∙ s.account_id;
  callback_url = t.callback_url ∙ s.callback_url;
  callback_expires_at = t.callback_expires_at ∙ s.callback_expires_at;
}

-- The row under an id stays, with what a reply reads of it.
pub find-delivered_rows :
    (id : Str) (now : ℕ) (ms rows : List InboundMessage) (m : InboundMessage)
    → find_where (has_id id) rows ≡ some m
    → (m' : InboundMessage) × ((find_where (has_id id) (delivered_rows now ms rows) ≡ some m')
        × SameOrigin m m')
unfolding delivered_rows
find-delivered_rows id now [] rows m found = (m, (found, marked-SameOrigin false now m))
find-delivered_rows id now (x ∷ ms) rows m found =
    let b = has_id x.id m in
    let y = if b then set_delivered now m else m in
    let here =
      find_where-update_where (has_id id) (has_id x.id) (set_delivered now) (λ x h. refl) rows m
        found in
    let (m', (there, same)) = find-delivered_rows id now ms _ y here in
    (m', (there, SameOrigin-trans m y m' (marked-SameOrigin b now m) same))

-- The frames of a message are among those of a list.
abbrev pub Carries : InboundMessage → List Frame → Type 0
Carries m fs = (xs : List Frame) × (ys : List Frame) × (fs ≡ xs ++ one m ++ ys)

-- A message is among the listed ones.
abbrev In : InboundMessage → List InboundMessage → Type 0
In m [] = ⊥
In m (x ∷ xs) = (x ≡ m) ⊎ In m xs

In-insert_by :
    (m x : InboundMessage) (ms : List InboundMessage)
    → In m (x ∷ ms)
    → In m (insert_by (λ m. m.created_at) x ms)
unfolding insert_by
In-insert_by m x [] h = h
In-insert_by m x (y ∷ ms) h = elim (Bool-cases (leb x.created_at y.created_at)) [
  | inl first ↦ rw first h
  | inr later ↦ rw later (elim h [
    | inl here ↦ inr (In-insert_by m x ms (inl here))
    | inr (inl next_) ↦ inl next_
    | inr (inr further) ↦ inr (In-insert_by m x ms (inr further))
  ])
]

In-order_by :
    (m : InboundMessage) (ms : List InboundMessage)
    → In m ms
    → In m (order_by (λ m. m.created_at) ms)
unfolding order_by
In-order_by m [] h = absurd h
In-order_by m (x ∷ ms) (inl here) = In-insert_by m x _ (inl here)
In-order_by m (x ∷ ms) (inr further) = In-insert_by m x _ (inr (In-order_by m ms further))

In-select :
    (m : InboundMessage) (p : InboundMessage → Bool) (rows : List InboundMessage)
    → p m ≡ true
    → In m (select p (rows ++ m ∷ []))
unfolding select
In-select m p [] h = rw h (inl refl)
In-select m p (x ∷ rows) h = elim (Bool-cases (p x)) [
  | inl kept ↦ rw kept (inr (In-select m p rows h))
  | inr dropped ↦ rw dropped (In-select m p rows h)
]

In-frames : (m : InboundMessage) (ms : List InboundMessage) → In m ms → Carries m (frames ms)
unfolding frames one
In-frames m [] h = absurd h
In-frames m (x ∷ ms) (inl here) = ([], frames ms, ap (λ y. one y ++ frames ms) here)
In-frames m (x ∷ ms) (inr further) =
    let (xs, ys, same) = In-frames m ms further in (one x ++ xs, ys, ap (λ fs. one x ++ fs) same)

-- A queued message that was inserted last is in the backlog of its account.
pub newest-frames :
    (m : InboundMessage) (rows : List InboundMessage) (db : Database)
    → is_queued m.status ≡ true
    → db.inbound ≡ rows ++ m ∷ []
    → Carries m (frames (queued_of m.account_id db))
unfolding queued_of
newest-frames m rows db waits same =
    let p = λ (x : InboundMessage). of_account m.account_id x && is_queued x.status in
    let mine : p m ≡ true = rw (str_eq_refl m.account_id, waits) refl in
    In-frames m _
      (In-order_by m _ (subst (λ xs. In m (select p xs)) (sym same) (In-select m p rows mine)))
