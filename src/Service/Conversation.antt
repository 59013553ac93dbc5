-- ===== src/Service/Conversation.antt =====
-- internal/service/conversation.go
pub mod Keys
use kakao_relay.Prelude.{ℕ, Str, Option, none, List, ◌∷◌, ◌++◌, lit}
use kakao_relay.Model.{ConversationMapping, PairingState, unpaired}
use kakao_relay.World.{M, wrapped}
use kakao_relay.Repository.Conversations
use kakao_relay.Repository.Conversations.{UpsertConversationParams}

-- `BuildConversationKey`
unfoldable pub build_conversation_key : Str → Str → Str
build_conversation_key channel user = channel ++ b':' ∷ user

abbrev pub upsert_params : Str → Str → Option Str → Option ℕ → UpsertConversationParams
upsert_params channel user url expires_at = record {
  conversation_key = build_conversation_key channel user;
  kakao_channel_id = channel;
  plusfriend_user_key = user;
  callback_url = url;
  callback_expires_at = expires_at;
}

unfoldable pub find_by_key : Str → M (Option ConversationMapping)
find_by_key key = Conversations.find_by_key key

unfoldable pub find_or_create : Str → Str → Option Str → Option ℕ → M ConversationMapping
find_or_create channel user url expires_at =
    wrapped (lit "find or create conversation")
      (Conversations.upsert (upsert_params channel user url expires_at))

unfoldable pub update_state : Str → PairingState → Option Str → M (Unit {0})
update_state key st account_id =
    wrapped (lit "update state") (Conversations.update_state key st account_id)

unfoldable pub unpair : Str → M (Unit {0})
unpair key = Conversations.update_state key unpaired none

unfoldable pub list_by_account_id : Str → M (List ConversationMapping)
list_by_account_id id = Conversations.find_paired_by_account_id id
