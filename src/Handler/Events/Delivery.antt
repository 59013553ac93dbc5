-- ===== src/Handler/Events/Delivery.antt =====
-- What `sendQueuedMessages` writes and marks.
use kakao_relay.Prelude.{
  ℕ, Str, str_eq_refl, Bool, true, false, ◌&&◌, none, List, [], ◌∷◌, ◌++◌, ◌≡◌, refl, sym, ap, ap₂,
  subst, ◌∙◌, arith, select, order_by, insert_by, update_where, if◌then◌else◌, All, All-map,
  select-none, count_where,
}
use mathlib.Core.List.{append_assoc, append-nil}
use kakao_relay.Prelude.Ordering.{
  Ascending, order_by-Ascending, count_where-order_by, count_where-select,
}
use kakao_relay.Model.{InboundMessage, is_queued, to_sse_event_data}
use kakao_relay.World.{Database, World, Result, ok, next, after}
use kakao_relay.Repository.Query.{exec_context}
use kakao_relay.Repository.Query.Cases.{select_context-Answers}
use kakao_relay.Repository.Inbound
use kakao_relay.Repository.Inbound.{queued_of, has_id, of_account, set_delivered}
use kakao_relay.Service.Message.{find_queued_by_account_id, mark_delivered}
use kakao_relay.Handler.Kakao.{message_event}
use kakao_relay.Handler.Events.{
  Frame, event_line, data_line, Writer, write, send_raw_event, send_messages, send_found,
  send_queued_messages,
}

-- The frames of some messages.
unfoldable pub frames : List InboundMessage → List Frame
frames [] = []
frames (m ∷ ms) = event_line (message_event m).type ∷ data_line (to_sse_event_data m) ∷ frames ms

-- The rows after the messages are marked as delivered.
unfoldable pub delivered_rows : ℕ → List InboundMessage → List InboundMessage → List InboundMessage
delivered_rows now [] rows = rows
delivered_rows now (m ∷ ms) rows =
    delivered_rows now ms (update_where (has_id m.id) (set_delivered now) rows)

-- No database call fails any more, and no write.
abbrev pub NoFaults : World → Writer → Type 0
NoFaults w out = (w.db_faults ≡ []) × (out.faults ≡ [])

-- One message.
unfoldable pub one : InboundMessage → List Frame
one m = event_line (message_event m).type ∷ data_line (to_sse_event_data m) ∷ []

pub record Wrote (m : InboundMessage) (out : Writer) (sent : Result (Unit {0}) × Writer)
    : Type 0 where
  pub ends : sent.0 ≡ ok tt
  written : sent.1.written ≡ out.written ++ one m
  pub faults : sent.1.faults ≡ []

pub send_raw_event-Wrote :
    (m : InboundMessage) (out : Writer)
    → out.faults ≡ []
    → Wrote m out (send_raw_event (message_event m) out)
unfolding send_raw_event write one
send_raw_event-Wrote m out none_left = record {
  ends = ground (arith, none_left);
  written = rw none_left (append_assoc out.written _ _);
  faults = ground (arith, none_left);
}

record Marked (m : InboundMessage) (w w' : World) : Type 0 where
  rows : w'.db.inbound ≡ update_where (has_id m.id) (set_delivered w.now) w.db.inbound
  faults : w'.db_faults ≡ []
  now : w'.now ≡ w.now

mark_delivered-Marked :
    (m : InboundMessage) (w : World) → w.db_faults ≡ [] → Marked m w (mark_delivered m.id w).1
unfolding mark_delivered Inbound.mark_delivered Inbound.update_messages exec_context
mark_delivered-Marked m w none_left = record {
  rows = ground (arith, none_left);
  faults = ground (arith, none_left);
  now = ground (arith, none_left);
}

-- What the loop has done when nothing fails.
pub record Sent (ms : List InboundMessage) (out : Writer) (w : World)
    (sent : Result (Unit {0}) × Writer × World) : Type 0 where
  pub ends : sent.0 ≡ ok tt
  pub written : sent.1.written ≡ out.written ++ frames ms
  pub rows : sent.2.db.inbound ≡ delivered_rows w.now ms w.db.inbound

pub send_messages-step :
    (m : InboundMessage) (ms : List InboundMessage) (out : Writer) (w : World)
    → (send_raw_event (message_event m) out).0 ≡ ok tt
    → send_messages (m ∷ ms) out w
      ≡ send_messages ms (send_raw_event (message_event m) out).1 (mark_delivered m.id w).1
unfolding send_messages
send_messages-step m ms out w sent = ground (arith, sent)

send_messages-Sent :
    (ms : List InboundMessage) (out : Writer) (w : World)
    → NoFaults w out
    → Sent ms out w (send_messages ms out w)
unfolding send_messages frames delivered_rows one
send_messages-Sent [] out w ok_ = record {
  ends = refl;
  written = sym (append-nil out.written);
  rows = refl;
}
send_messages-Sent (m ∷ ms) out w (db_ok, out_ok) =
    let sent = send_raw_event-Wrote m out out_ok in
    let marked = mark_delivered-Marked m w db_ok in
    let out' = (send_raw_event (message_event m) out).1 in
    let w' = (mark_delivered m.id w).1 in
    let rest = send_messages-Sent ms out' w' (marked.faults, sent.faults) in
    subst (Sent (m ∷ ms) out w) (sym (send_messages-step m ms out w sent.ends)) (record {
      ends = rest.ends;
      written =
          rest.written
          ∙ ap (λ fs. fs ++ frames ms) sent.written
          ∙ append_assoc out.written (one m) (frames ms);
      rows = rest.rows ∙ ap₂ (λ n rows. delivered_rows n ms rows) marked.now marked.rows;
    })

-- The row-level facts: after marking, no row of the account is queued.
abbrev pub waits : Str → InboundMessage → Bool
waits id m = of_account id m && is_queued m.status

abbrev names : List InboundMessage → InboundMessage → Bool
names [] x = false
names (m ∷ ms) x = if has_id m.id x then true else names ms x

-- Every row that waits is among the messages.
abbrev Covers : Str → List InboundMessage → List InboundMessage → Type 0
Covers id ms rows = All (λ x. waits id x ≡ true → names ms x ≡ true) rows

Covers-step :
    (id : Str) (now : ℕ) (m : InboundMessage) (ms rows : List InboundMessage)
    → Covers id (m ∷ ms) rows
    → Covers id ms (update_where (has_id m.id) (set_delivered now) rows)
unfolding update_where
Covers-step id now m ms [] h = tt
Covers-step id now m ms (x ∷ rows) (h, hs) = (ground (arith, h), Covers-step id now m ms rows hs)

none_wait :
    (id : Str) (now : ℕ) (ms rows : List InboundMessage)
    → Covers id ms rows
    → All (λ x. waits id x ≡ false) (delivered_rows now ms rows)
unfolding delivered_rows
none_wait id now [] [] h = tt
none_wait id now [] (x ∷ rows) (h, hs) = (ground (arith, h), none_wait id now [] rows hs)
none_wait id now (m ∷ ms) rows h = none_wait id now ms _ (Covers-step id now m ms rows h)

names-insert :
    (y x : InboundMessage) (ms : List InboundMessage)
    → names (insert_by (λ m. m.created_at) y ms) x ≡ names (y ∷ ms) x
unfolding insert_by
names-insert y x [] = refl
names-insert y x (m ∷ ms) = ground (arith, names-insert y x ms)

names-order :
    (x : InboundMessage) (ms : List InboundMessage)
    → names (order_by (λ m. m.created_at) ms) x ≡ names ms x
unfolding order_by
names-order x [] = refl
names-order x (m ∷ ms) =
    names-insert m x (order_by (λ m. m.created_at) ms) ∙ ground (arith, names-order x ms)

names-select :
    (id : Str) (m x : InboundMessage) (rows : List InboundMessage)
    → (waits id x ≡ true → names (select (waits id) rows) x ≡ true)
    → waits id x ≡ true
    → names (select (waits id) (m ∷ rows)) x ≡ true
unfolding select
names-select id m x rows h k = ground (arith, h k)

Covers-select : (id : Str) (rows : List InboundMessage) → Covers id (select (waits id) rows) rows
unfolding select
Covers-select id [] = tt
Covers-select id (m ∷ rows) = (
  λ h. ground (arith, h, str_eq_refl m.id),
  All-map _ _ (λ x h k. names-select id m x rows h k) rows (Covers-select id rows),
)

Covers-queue : (id : Str) (db : Database) → Covers id (queued_of id db) db.inbound
unfolding queued_of
Covers-queue id db =
    All-map _ _ (λ x h k. names-order x _ ∙ h k) db.inbound (Covers-select id db.inbound)

-- The queue of the account is empty.
queued_of-none :
    (id : Str) (db : Database) → All (λ x. waits id x ≡ false) db.inbound → queued_of id db ≡ []
unfolding queued_of order_by
queued_of-none id db h = ap (order_by (λ m. m.created_at)) (select-none (waits id) db.inbound h)

-- The backlog of an account: its waiting rows and no others, each as often as in the table, an
-- older one before a newer one.
pub record IsBacklog (id : Str) (rows ms : List InboundMessage) : Type 0 where
  pub ordered : Ascending (λ m. m.created_at) ms
  pub complete :
      (p : InboundMessage → Bool) → count_where p ms ≡ count_where (λ m. p m && waits id m) rows

queued_of-IsBacklog : (id : Str) (db : Database) → IsBacklog id db.inbound (queued_of id db)
unfolding queued_of
queued_of-IsBacklog id db = record {
  ordered = order_by-Ascending (λ m. m.created_at) (select (waits id) db.inbound);
  complete = λ p.
      count_where-order_by (λ m. m.created_at) p (select (waits id) db.inbound)
      ∙ count_where-select p (waits id) db.inbound;
}

-- What the delivery of the backlog promises.
pub record Drained (id : Str) (out : Writer) (db : Database)
    (sent : Result (Unit {0}) × Writer × World) : Type 0 where
  pub ends : sent.0 ≡ ok tt
  pub written : sent.1.written ≡ out.written ++ frames (queued_of id db)
  pub backlog : IsBacklog id db.inbound (queued_of id db)
  pub drained : queued_of id sent.2.db ≡ []

send_found-Drained :
    (id : Str) (out : Writer) (w : World)
    → NoFaults w out
    → Drained id out w.db (send_found (ok (queued_of id w.db), w) out)
unfolding send_found
send_found-Drained id out w ok_ =
    let sent = send_messages-Sent (queued_of id w.db) out w ok_ in
    record {
      ends = sent.ends;
      written = sent.written;
      backlog = queued_of-IsBacklog id w.db;
      drained = queued_of-none id _ (
          subst (All (λ x. waits id x ≡ false)) (sym sent.rows)
            (none_wait id w.now (queued_of id w.db) w.db.inbound (Covers-queue id w.db)));
    }

-- When no database call and no write fails, the rows of the account that are queued are written,
-- all of them and no others, each as one event, none before an older one, after what was written
-- before, and afterwards the account has no queued message.
pub send_queued_messages-Drained :
    (id : Str) (out : Writer) (w : World)
    → NoFaults w out
    → Drained id out w.db (send_queued_messages id out w)
unfolding send_queued_messages find_queued_by_account_id Inbound.find_queued_by_account_id
send_queued_messages-Drained id out w (db_ok, out_ok) =
    rw (select_context-Answers (λ v. queued_of id v.db) w (ap (λ fs. (next none fs).0) db_ok))
      (send_found-Drained id out (after w) (ap (λ fs. (next none fs).1) db_ok, out_ok))
