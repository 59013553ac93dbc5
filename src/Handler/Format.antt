-- ===== src/Handler/Format.antt =====
-- internal/handler/response.go: times and conversations in JSON answers. `time.Format` in RFC 3339
-- is an argument.
use kakao_relay.Prelude.{ℕ, Str, Option, none, some, lit}
use kakao_relay.Model.{
  Json, end, field, ConversationMapping, PairingState, unpaired, pending, paired, blocked,
}

-- `formatTime`
unfoldable pub format_time : (ℕ → Str) → Option ℕ → Json
format_time rfc3339 none = Json.null
format_time rfc3339 (some t) = Json.str (rfc3339 t)

unfoldable pub state_text : PairingState → Str
state_text unpaired = lit "unpaired"
state_text pending = lit "pending"
state_text paired = lit "paired"
state_text blocked = lit "blocked"

-- `formatConversation`; the keys of a map are written in their order.
unfoldable pub format_conversation : (ℕ → Str) → ConversationMapping → Json
unfolding format_time state_text
format_conversation rfc3339 c = Json.obj (
    field (lit "conversationKey") (Json.str c.conversation_key) (
      field (lit "id") (Json.str c.id) (
        field (lit "lastSeenAt") (Json.str (rfc3339 c.last_seen_at)) (
          field (lit "pairedAt") (format_time rfc3339 c.paired_at)
            (field (lit "state") (Json.str (state_text c.state)) end)))))
