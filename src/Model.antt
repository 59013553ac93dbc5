-- ===== src/Model.antt =====
-- internal/model/*.go: the rows of the five tables and their status enums, and JSON values.
-- A `time.Time` is a count of nanoseconds; a `*T` is an `Option`. A `json.RawMessage` is kept as
-- the value that it encodes.
use kakao_relay.Prelude.{ℕ, ◌*◌, Str, Option, none, some, Bool, true, false, lit}

-- The Go `int` of a rate limit, which may be negative: `negsuc n` is -(n + 1).
pub data ℤ : Type 0 where
  pos : ℕ → ℤ
  negsuc : ℕ → ℤ

-- `time.Second` and `time.Minute`.
abbrev pub second : ℕ
second = 1_000_000_000

abbrev pub minute : ℕ
minute = 60 * second

mutual
  pub data Json : Type 0 where
    null : Json
    num : ℕ → Json
    str : Str → Json
    arr : Items → Json
    obj : Fields → Json

  pub data Items : Type 0 where
    nil : Items
    cons : Json → Items → Items

  pub data Fields : Type 0 where
    end : Fields
    field : Str → Json → Fields → Fields

pub data PairingState : Type 0 where
  unpaired pending paired blocked : PairingState

pub data InboundMessageStatus : Type 0 where
  queued delivered acked expired : InboundMessageStatus

pub data OutboundMessageStatus : Type 0 where
  pending sent failed : OutboundMessageStatus

pub data SessionStatus : Type 0 where
  pending_pairing paired expired disconnected : SessionStatus

pub record Account : Type 0 where
  pub id : Str
  pub relay_token_hash : Option Str
  pub rate_limit_per_min : ℤ
  pub created_at : ℕ
  pub updated_at : ℕ

pub record ConversationMapping : Type 0 where
  pub id : Str
  pub conversation_key : Str
  pub kakao_channel_id : Str
  pub plusfriend_user_key : Str
  pub account_id : Option Str
  pub state : PairingState
  pub last_callback_url : Option Str
  pub last_callback_expires_at : Option ℕ
  pub first_seen_at : ℕ
  pub last_seen_at : ℕ
  pub paired_at : Option ℕ

pub record InboundMessage : Type 0 where
  pub id : Str
  pub account_id : Str
  pub conversation_key : Str
  pub kakao_payload : Json
  pub normalized_message : Option Json
  pub callback_url : Option Str
  pub callback_expires_at : Option ℕ
  pub status : InboundMessageStatus
  pub source_event_id : Option Str
  pub created_at : ℕ
  pub delivered_at : Option ℕ
  pub acked_at : Option ℕ

pub record OutboundMessage : Type 0 where
  pub id : Str
  pub account_id : Str
  pub inbound_message_id : Option Str
  pub conversation_key : Str
  pub kakao_target : Json
  pub response_payload : Json
  pub status : OutboundMessageStatus
  pub error_message : Option Str
  pub created_at : ℕ
  pub sent_at : Option ℕ

pub record Session : Type 0 where
  pub id : Str
  pub session_token_hash : Str
  pub pairing_code : Str
  pub status : SessionStatus
  pub account_id : Option Str
  pub paired_conversation_key : Option Str
  pub metadata : Option Json
  pub expires_at : ℕ
  pub paired_at : Option ℕ
  pub created_at : ℕ
  pub updated_at : ℕ

abbrev pub json_or_null : Option Json → Json
json_or_null none = null
json_or_null (some j) = j

-- `ToSSEEventData`; the creation time is kept as a number in place of its text.
unfoldable pub to_sse_event_data : InboundMessage → Json
to_sse_event_data m = obj (
    field (lit "id") (str m.id) (
      field (lit "conversationKey") (str m.conversation_key) (
        field (lit "kakaoPayload") m.kakao_payload (
          field (lit "normalized") (json_or_null m.normalized_message)
            (field (lit "createdAt") (num m.created_at) end)))))

-- Comparisons of statuses with a constant.
abbrev pub is_pending_pairing : SessionStatus → Bool
is_pending_pairing pending_pairing = true
is_pending_pairing _ = false

abbrev pub is_paired_session : SessionStatus → Bool
is_paired_session paired = true
is_paired_session _ = false

abbrev pub is_closed_session : SessionStatus → Bool
is_closed_session expired = true
is_closed_session disconnected = true
is_closed_session _ = false

abbrev pub is_paired : PairingState → Bool
is_paired paired = true
is_paired _ = false

abbrev pub is_queued : InboundMessageStatus → Bool
is_queued queued = true
is_queued _ = false

abbrev pub is_failed : OutboundMessageStatus → Bool
is_failed failed = true
is_failed _ = false
