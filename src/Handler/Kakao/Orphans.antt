-- ===== src/Handler/Kakao/Orphans.antt =====
-- A conversation whose account was deleted.
use kakao_relay.Prelude.{
  ℕ, Str, option_is, true, false, Option, none, some, ◌≡◌, refl, is_empty, find_where,
  if◌then◌else◌,
}
use kakao_relay.Model.{ConversationMapping, is_paired}
use kakao_relay.World.{World}
use kakao_relay.Runtime.{Runtime}
use kakao_relay.Repository.Accounts.{unlink_conversation, delete_account}
use kakao_relay.Repository.Conversations
use kakao_relay.Repository.Conversations.{refresh}
use kakao_relay.Repository.Query.Cases.{Answers}
use kakao_relay.Handler.Command.{Command, CommandType, pair, unpair, status, help, unknown}
use kakao_relay.Handler.Types.{KakaoWebhookRequest, new_text_response}
use kakao_relay.Handler.Kakao.Queueing.{seen, refreshed}
use kakao_relay.Handler.Kakao.{
  says, already_paired_text, not_connected_text, disconnected_text, handle_pair, key_of,
  handle_webhook, help_text, unknown_text, no_code_text,
}

module _ (rt : Runtime) (conv : ConversationMapping) (orphan : conv.account_id ≡ none)
    (is : is_paired conv.state ≡ true) where
  orphan-pair :
      (code key : Str) (w : World)
      → is_empty code ≡ false
      → handle_pair rt code conv key w ≡ says already_paired_text w
  unfolding handle_pair
  orphan-pair code key w named = rw (named, is) refl

-- What a conversation is told whose account is gone, except for `/unpair`.
abbrev pub stuck_command : CommandType → Str → Option Str
stuck_command pair code = some (if is_empty code then no_code_text else already_paired_text)
stuck_command unpair code = none
stuck_command status code = some disconnected_text
stuck_command help code = some help_text
stuck_command unknown code = some unknown_text

abbrev pub stuck_text : Option Command → Option Str
stuck_text none = some not_connected_text
stuck_text (some cmd) = stuck_command cmd.type cmd.code

-- The world in which the account was deleted.
abbrev pub without_account : Str → World → World
without_account id w = record w { db = delete_account id w.db }

module _ (rt : Runtime) (r : KakaoWebhookRequest) (ttl : ℕ) (id : Str) (c : ConversationMapping)
    (w : World) where
  -- The database answers, and the conversation of the request is paired with the account.
  pub record PairedWith : Type 0 where
    pub answers : Answers w
    pub found : find_where (Conversations.has_key (key_of r)) w.db.conversations ≡ some c
    pub linked : option_is c.account_id id ≡ true
    pub is : is_paired c.state ≡ true

  -- The answer to a request that changes nothing but the conversation's callback and time.
  abbrev pub OnlySays : Str → Type 0
  OnlySays text =
      handle_webhook rt ttl r (without_account id w)
      ≡ (new_text_response text, refreshed r ttl (without_account id w))

  abbrev row : ConversationMapping
  row = refresh (seen r ttl w.now) w.now (unlink_conversation id c)
