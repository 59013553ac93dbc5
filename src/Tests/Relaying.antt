-- ===== src/Tests/Relaying.antt =====
-- A message and its answer, from the webhook to the callback.
use kakao_relay.Prelude.{
  Str, none, some, [], ◌∷◌, lit, ◌≡◌, refl, arith, is_empty, str_eq, find_where,
}
use kakao_relay.Model.{Json}
use kakao_relay.World.{World}
use kakao_relay.Handler.Types.{KakaoWebhookRequest, new_callback_response}
use kakao_relay.Handler.Command.{Command, pair, parse_command}
use kakao_relay.Handler.Kakao.{handle_webhook}
use kakao_relay.Handler.Kakao.Queueing.{Relayable, relayed, handle_webhook-relayed}
use kakao_relay.Handler.Events.{Writer}
use kakao_relay.Handler.Openclaw.{ReplyRequest, reply}
use kakao_relay.Handler.Openclaw.Isolation.{MayReply}
use kakao_relay.Handler.Openclaw.Settlement.{Settled, Storable, reply-Settled}
use kakao_relay.Server.Relay.{Ready, RoundTrip, relay-RoundTrip}
use kakao_relay.Tests.Data.{runtime, alice, hello, conversation, world, request}

-- The request with a callback, and a world with an id for each insert.
abbrev asked : KakaoWebhookRequest
asked = record request { callback_url = lit "https://bot.kakao.com/cb" }

abbrev ready_world : World
ready_world = record world { uuids = lit "c9" ∷ lit "m9" ∷ lit "o9" ∷ [] }

relayable : Relayable runtime asked conversation (lit "alice") ready_world
unfolding str_eq find_where kakao_relay.Handler.Command.parse_command
    kakao_relay.Service.Conversation.build_conversation_key kakao_relay.Prelude.has_prefix
    kakao_relay.Prelude.trim_space kakao_relay.Handler.Types.get_channel_id
    kakao_relay.Handler.Types.get_plusfriend_user_key
relayable = record {
  plain = refl;
  found = refl;
  is = refl;
  linked = refl;
  known = refl;
  fresh_id = refl;
  first = refl;
  second = refl;
  redis = refl;
}

handle_webhook-relayed_example :
    handle_webhook runtime 55 asked ready_world
    ≡ (new_callback_response, relayed asked 55 (lit "alice") ready_world)
handle_webhook-relayed_example =
    handle_webhook-relayed runtime asked 55 (lit "alice") conversation ready_world relayable

abbrev stream : Writer
stream = record { written = []; faults = [] }

ready : Ready runtime asked conversation alice stream ready_world
unfolding str_eq find_where kakao_relay.Service.Callback.is_valid_callback_url
    kakao_relay.Service.Callback.has_allowed_suffix kakao_relay.Prelude.has_suffix
    kakao_relay.Prelude.to_lower
ready = record {
  relayable = relayable;
  callback = refl;
  allowed = refl;
  named = refl;
  fresh_reply = refl;
  no_faults = refl;
  no_write_faults = refl;
}

relay-RoundTrip_example :
    RoundTrip runtime asked 55 alice stream 20 30 (Json.str (lit "hello")) ready_world
relay-RoundTrip_example =
    relay-RoundTrip runtime asked 55 alice stream 20 30 (Json.str (lit "hello")) conversation
      ready_world (omega arith) ready

abbrev answer : ReplyRequest
answer = record { message_id = lit "m1"; response = some (Json.str (lit "hello")) }

abbrev greeted_url : Str
greeted_url = lit "https://bot.kakao.com/cb"

may_answer : MayReply runtime alice (lit "m1") world.db 10 greeted_url
unfolding str_eq find_where kakao_relay.Service.Callback.is_valid_callback_url
    kakao_relay.Service.Callback.has_allowed_suffix kakao_relay.Prelude.has_suffix
    kakao_relay.Prelude.to_lower
may_answer = record {
  message = hello;
  found = refl;
  owned = refl;
  callback = refl;
  fresh = refl;
  allowed = refl;
}

storable : Storable alice world
unfolding str_eq find_where
storable = record { no_faults = refl; known = refl; fresh_id = refl }

reply-Settled_example :
    Settled alice answer may_answer.message greeted_url
      (Json.str (lit "hello"))
      world
      (reply runtime (some alice) (some answer) world)
reply-Settled_example =
    reply-Settled runtime alice answer greeted_url (Json.str (lit "hello")) world may_answer
      storable refl refl

-- The request as `/pair AB-12`.
abbrev pair_request : KakaoWebhookRequest
pair_request = record request { utterance = lit "/pair AB-12" }

abbrev pair_command : Command
pair_command = record { type = pair; code = lit "AB-12" }
