-- ===== src/Server/Invariants/Endpoints.antt =====
-- internal/handler and internal/jobs: what the other handlers and the cleanup keep.
use kakao_relay.Prelude.{
  Str, Bool, true, false, ◌≡◌, sym, subst, Option, none, some, List, [], ◌∷◌, is_empty, str_eq,
  arith, inl, inr, Bool-cases,
}
use kakao_relay.Model.{Account, InboundMessage, Json, OutboundMessage, Session, json_or_null}
use kakao_relay.World.{Database, World, Result, ok, err}
use kakao_relay.Runtime.{Runtime}
use kakao_relay.Repository.Inbound
use kakao_relay.Repository.Statements.{KeptBy}
use kakao_relay.Repository.Statements.Calls.{Keeps-get_context, Keeps-select_context}
use kakao_relay.Repository.Statements.Writes.{
  create_outbound-Keeps, mark_sent-Keeps, mark_failed-Keeps, mark_delivered-Keeps,
  mark_overdue-Keeps, delete_expired-Keeps,
}
use kakao_relay.Service.Callback.{send_callback, post}
use kakao_relay.Service.Message.{
  find_inbound_by_id, create_outbound, mark_outbound_sent, mark_outbound_failed, mark_delivered,
  find_queued_by_account_id,
}
use kakao_relay.Handler.Openclaw.{
  ReplyRequest, finish_reply, send_reply, reply_to, reply_found, reply, outbound_params,
  valid_callback,
}
use kakao_relay.Handler.Events.{
  Writer, Signal, send_messages, send_found, send_queued_messages, send_backlog, send_raw_event,
  serve_events, subscription,
}
use kakao_relay.Handler.Kakao.{message_event}
use kakao_relay.Jobs.{cleanup}

db-send_callback :
    (rt : Runtime) (url : Str) (payload : Json) (w : World)
    → (send_callback rt url payload w).1.db ≡ w.db
unfolding send_callback post
db-send_callback rt url payload w = ground arith

-- The database after a stream that was served has the predicate.
unfoldable pub KeepsStream : (Database → Type 0) → Option (Writer × World) → Type 0
KeepsStream P none = Unit
KeepsStream P (some (out, w)) = P w.db

module _ (P : Database → Type 0) (law : KeptBy P) where
  module _ (rt : Runtime) where
    finish_reply-keeps :
        (o : OutboundMessage) (r : Result (Unit {0})) (w : World)
        → P w.db
        → P (finish_reply o (r, w)).1.db
    unfolding finish_reply mark_outbound_sent mark_outbound_failed
    finish_reply-keeps o (ok _) w p = (mark_sent-Keeps P law o.id).keeps w p
    finish_reply-keeps o (err e) w p = (mark_failed-Keeps P law o.id e).keeps w p

    send_reply-keeps :
        (url : Str) (req : ReplyRequest) (r : Result OutboundMessage) (w : World)
        → P w.db
        → P (send_reply rt url req (r, w)).1.db
    unfolding send_reply
    send_reply-keeps url req (err e) w p = p
    send_reply-keeps url req (ok o) w p =
        finish_reply-keeps o _ _
          (subst P (sym (db-send_callback rt url (json_or_null req.response) w)) p)

    reply_to-keeps :
        (account : Account) (req : ReplyRequest) (m : InboundMessage) (o : Option Str) (w : World)
        → P w.db
        → P (reply_to rt account req m o w).1.db
    unfolding reply_to create_outbound
    reply_to-keeps account req m none w p = p
    reply_to-keeps account req m (some url) w p =
        send_reply-keeps url req _ _
          ((create_outbound-Keeps P law (outbound_params account m req)).keeps w p)

    reply_found-keeps :
        (account : Account) (req : ReplyRequest) (r : Result (Option InboundMessage)) (w : World)
        → P w.db
        → P (reply_found rt account req (r, w)).1.db
    unfolding reply_found
    reply_found-keeps account req (err e) w p = p
    reply_found-keeps account req (ok none) w p = p
    reply_found-keeps account req (ok (some m)) w p =
        elim (Bool-cases (str_eq m.account_id account.id)) [
          | inl own ↦ rw own (reply_to-keeps account req m (valid_callback w.now m) w p)
          | inr other ↦ rw other p
        ]

    pub reply-keeps :
        (a : Option Account) (b : Option ReplyRequest) (w : World)
        → P w.db
        → P (reply rt a b w).1.db
    unfolding reply find_inbound_by_id Inbound.find_by_id
    reply-keeps none b w p = p
    reply-keeps (some account) none w p = p
    reply-keeps (some account) (some req) w p = elim (Bool-cases (is_empty req.message_id)) [
      | inl blank ↦ rw blank p
      | inr named ↦ rw named (reply_found-keeps account req _ _ ((Keeps-get_context P _).keeps w p))
    ]

  send_messages-keeps :
      (ms : List InboundMessage) (out : Writer) (w : World)
      → P w.db
      → P (send_messages ms out w).2.db
  unfolding send_messages mark_delivered
  send_messages-keeps [] out w p = p
  send_messages-keeps (m ∷ ms) out w p =
      let sent = send_raw_event (message_event m) out in
      let rest : P (send_messages ms sent.1 (mark_delivered m.id w).1).2.db =
        send_messages-keeps ms sent.1 _ ((mark_delivered-Keeps P law m.id).keeps w p) in
      elim sent.0
        as (λ r.
          P
            (elim r as (λ _. Result (Unit {0}) × Writer × World) [
              | err e ↦ (err e, sent.1, w)
              | ok _ ↦ send_messages ms sent.1 (mark_delivered m.id w).1
            ]).2.db) [ err e ↦ p | ok _ ↦ rest ]

  -- A sweep keeps what the statements keep.
  pub cleanup-keeps : (has_sessions : Bool) (w : World) → P w.db → P (cleanup has_sessions w).db
  unfolding cleanup
  cleanup-keeps true w p =
      (delete_expired-Keeps P law).keeps _ ((mark_overdue-Keeps P law).keeps w p)
  cleanup-keeps false w p = (mark_overdue-Keeps P law).keeps w p

  send_found-keeps :
      (r : Result (List InboundMessage)) (out : Writer) (w : World)
      → P w.db
      → P (send_found (r, w) out).2.db
  unfolding send_found
  send_found-keeps (err e) out w p = p
  send_found-keeps (ok ms) out w p = send_messages-keeps ms out w p

  send_backlog-keeps :
      (id : Str) (out : Writer) (w : World) → P w.db → P (send_backlog id out w).1.db
  unfolding send_queued_messages find_queued_by_account_id Inbound.find_queued_by_account_id
  send_backlog-keeps id out w p = elim (Bool-cases (is_empty id)) [
    | inl blank ↦ rw blank p
    | inr named ↦ rw named (send_found-keeps _ out _ ((Keeps-select_context P _).keeps w p))
  ]

  pub serve_events-keeps :
      (a : Option Account) (s : Option Session) (signals : List Signal) (out : Writer) (w : World)
      → P w.db
      → KeepsStream P (serve_events a s signals out w)
  unfolding serve_events subscription KeepsStream
  serve_events-keeps (some a) s signals out w p = send_backlog-keeps a.id out w p
  serve_events-keeps none (some s) signals out w p = send_backlog-keeps [] out w p
  serve_events-keeps none none signals out w p = tt
