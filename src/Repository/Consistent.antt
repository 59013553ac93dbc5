-- ===== src/Repository/Consistent.antt =====
-- The statuses of the rows and the columns that go with them.
pub mod Kept
pub mod Tables
use kakao_relay.Prelude.{Bool, true, false, not, ◌&&◌, ◌==◌, ◌≡◌, List, All, is_some, if◌then◌else◌}
use kakao_relay.Model.{
  ConversationMapping, InboundMessage, InboundMessageStatus, OutboundMessage, OutboundMessageStatus,
  Session, SessionStatus, pending_pairing, paired, expired, disconnected, queued, delivered, acked,
  is_paired, sent, failed,
}
use kakao_relay.World.{Database}
use kakao_relay.Repository.Sessions.{far_future}

-- A waiting session names no account; a paired one has its time, its conversation and no expiry.
abbrev pub session_fits : SessionStatus → Session → Bool
session_fits pending_pairing s = not (is_some s.account_id)
session_fits paired s =
    is_some s.paired_at && is_some s.paired_conversation_key && s.expires_at == far_future
session_fits expired s = true
session_fits disconnected s = true

-- A paired conversation has a pairing time, and only a paired one names an account.
abbrev pub conversation_fits : ConversationMapping → Bool
conversation_fits c =
    (if is_paired c.state then is_some c.paired_at else true)
    && (if is_some c.account_id then is_paired c.state else true)

abbrev pub inbound_fits : InboundMessageStatus → InboundMessage → Bool
inbound_fits queued m = not (is_some m.delivered_at)
inbound_fits delivered m = is_some m.delivered_at
inbound_fits acked m = true
inbound_fits InboundMessageStatus.expired m = true

abbrev pub outbound_fits : OutboundMessageStatus → OutboundMessage → Bool
outbound_fits OutboundMessageStatus.pending m =
    not (is_some m.sent_at) && not (is_some m.error_message)
outbound_fits sent m = is_some m.sent_at
outbound_fits failed m = is_some m.error_message

pub record Consistent (db : Database) : Type 0 where
  pub sessions : All (λ (s : Session). session_fits s.status s ≡ true) db.sessions
  pub conversations : All (λ (c : ConversationMapping). conversation_fits c ≡ true) db.conversations
  pub inbound : All (λ (m : InboundMessage). inbound_fits m.status m ≡ true) db.inbound
  pub outbound : All (λ (m : OutboundMessage). outbound_fits m.status m ≡ true) db.outbound
