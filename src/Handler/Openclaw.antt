-- ===== src/Handler/Openclaw.antt =====
-- internal/handler/openclaw.go: the reply to a Kakao user.
pub mod Delivery
pub mod Isolation
pub mod Settlement
use kakao_relay.Prelude.{
  ℕ, Str, str_eq, Bool, true, Option, none, some, lit, ltb, if◌then◌else◌, is_empty,
}
use kakao_relay.Model.{Json, end, Account, InboundMessage, OutboundMessage, json_or_null}
use kakao_relay.World.{World, Result, ok, err}
use kakao_relay.Runtime.{Runtime}
use kakao_relay.Errors.{
  AppError, session_not_paired_error, validation_error, missing_required_error, not_found_error,
  callback_expired_error, callback_failed_error, database_error,
}
use kakao_relay.Repository.Outbound.{CreateOutboundParams}
use kakao_relay.Service.Callback.{send_callback}
use kakao_relay.Service.Message.{
  find_inbound_by_id, create_outbound, mark_outbound_sent, mark_outbound_failed,
}

pub record ReplyRequest : Type 0 where
  pub message_id : Str
  pub response : Option Json

-- 200 with `deliveredAt`, or the error that `WriteError` gets.
pub data ReplyOutcome : Type 0 where
  delivered : ℕ → ReplyOutcome
  rejected : AppError → ReplyOutcome

-- `callbackExpiresAt == nil || callbackExpiresAt.After(now)`
abbrev pub not_expired : ℕ → Option ℕ → Bool
not_expired now none = true
not_expired now (some t) = ltb now t

-- The callback URL that may be used, if `hasValidCallback`.
abbrev pub valid_callback : ℕ → InboundMessage → Option Str
valid_callback now m = if not_expired now m.callback_expires_at then m.callback_url else none

abbrev pub outbound_params : Account → InboundMessage → ReplyRequest → CreateOutboundParams
outbound_params account m req = record {
  account_id = account.id;
  inbound_message_id = some req.message_id;
  conversation_key = m.conversation_key;
  kakao_target = Json.obj end;
  response_payload = req.response;
}

-- After `SendCallback`; the errors of the two marks are dropped.
unfoldable pub finish_reply : OutboundMessage → Result (Unit {0}) × World → ReplyOutcome × World
finish_reply o (ok _, w) = let (r, w') = mark_outbound_sent o.id w in (delivered w'.now, w')
finish_reply o (err e, w) =
    let (r, w') = mark_outbound_failed o.id e w in
    (rejected (callback_failed_error (lit "Kakao callback failed")), w')

-- After `CreateOutbound`.
unfoldable pub send_reply :
    Runtime → Str → ReplyRequest → Result OutboundMessage × World → ReplyOutcome × World
unfolding finish_reply
send_reply rt url req (err e, w) = (rejected (database_error e), w)
send_reply rt url req (ok o, w) =
    finish_reply o (send_callback rt url (json_or_null req.response) w)

unfoldable pub reply_to :
    Runtime → Account → ReplyRequest → InboundMessage → Option Str → World → ReplyOutcome × World
unfolding send_reply
reply_to rt account req m none w = (rejected callback_expired_error, w)
reply_to rt account req m (some url) w =
    send_reply rt url req (create_outbound (outbound_params account m req) w)

-- After `FindInboundByID`.
unfoldable pub reply_found :
    Runtime → Account → ReplyRequest → Result (Option InboundMessage) × World → ReplyOutcome × World
unfolding reply_to
reply_found rt account req (err e, w) = (rejected (database_error e), w)
reply_found rt account req (ok none, w) = (rejected (not_found_error (lit "Message")), w)
reply_found rt account req (ok (some m), w) =
    if str_eq m.account_id account.id
    then reply_to rt account req m (valid_callback w.now m) w
    else (rejected (not_found_error (lit "Message")), w)

-- `Reply`, for the account of the request's context and the decoded body.
unfoldable pub reply : Runtime → Option Account → Option ReplyRequest → World → ReplyOutcome × World
unfolding reply_found
reply rt none body w = (rejected session_not_paired_error, w)
reply rt (some account) none w = (rejected (validation_error (lit "Invalid request body")), w)
reply rt (some account) (some req) w =
    if is_empty req.message_id
    then (rejected (missing_required_error (lit "messageId")), w)
    else reply_found rt account req (find_inbound_by_id req.message_id w)
