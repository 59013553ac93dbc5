-- ===== src/Tests/Relay.antt =====
-- Examples of requests: the webhook, the commands, the reply, the stream, and access.
use kakao_relay.Prelude.{
  ℕ, ◌≤◌, arith, Str, true, false, Option, none, some, List, [], ◌∷◌, ◌++◌, lit, ◌≡◌, refl, ◌↔◌,
  option_is, is_empty,
}
use kakao_relay.Model.{Json}
use kakao_relay.World.{World, Database, ok}
use kakao_relay.Repository.Accounts.{delete_account}
use kakao_relay.Repository.Accounts.Deletion.{NoTrace, delete_account-NoTrace}
use kakao_relay.Repository.Conversations.{UpsertConversationParams, refresh, upsert_row}
use kakao_relay.Repository.Conversations.Upserts.{Upserted, upsert_row-Upserted}
use kakao_relay.Handler.Openclaw.{ReplyRequest, delivered, reply}
use kakao_relay.Handler.Openclaw.Delivery.{Delivers, reply-Delivers}
use kakao_relay.Handler.Openclaw.Isolation.{MayReply, SendsOnly, reply-SendsOnly}
use kakao_relay.Handler.Events.{Writer, send_queued_messages}
use kakao_relay.Handler.Events.Delivery.{Drained, send_queued_messages-Drained}
use kakao_relay.Handler.Kakao.{handle_webhook}
use kakao_relay.Handler.Kakao.Commands.{inbound_of}
use kakao_relay.Handler.Kakao.Relaying.{Relays, conversation_of, handle_webhook-Relays}
use kakao_relay.Jobs.{cleanup}
use kakao_relay.Jobs.Sweep.{Clean, cleanup-Clean}
use kakao_relay.Middleware.Auth.{AuthRequest, authenticate, extract_token}
use kakao_relay.Middleware.Auth.Admission.{Admitted, authenticate-Admitted}
use kakao_relay.Middleware.Signature.{SignedRequest, check_signature, proceed}
use kakao_relay.Middleware.Signature.Acceptance.{Genuine, check_signature_iff}
use kakao_relay.Tests.Data.{runtime, alice, conversation, database, world, request}

abbrev answer_request : ReplyRequest
answer_request = record { message_id = lit "m1"; response = some (Json.str (lit "hello")) }

reply-SendsOnly_example :
    SendsOnly runtime alice answer_request world
      (reply runtime (some alice) (some answer_request) world).1
reply-SendsOnly_example = reply-SendsOnly runtime alice answer_request world

handle_webhook-Relays_example :
    Relays runtime request 5 10
      (conversation_of request 5 world).0
      database.inbound
      (inbound_of (handle_webhook runtime 5 request world).1)
handle_webhook-Relays_example = handle_webhook-Relays runtime 5 request world

abbrev stream : Writer
stream = record { written = []; faults = [] }

send_queued_messages-Drained_example :
    Drained (lit "alice") stream database (send_queued_messages (lit "alice") stream world)
send_queued_messages-Drained_example =
    send_queued_messages-Drained (lit "alice") stream world (refl, refl)

delete_account-NoTrace_example : NoTrace (lit "alice") (delete_account (lit "alice") database)
delete_account-NoTrace_example = delete_account-NoTrace (lit "alice") database

cleanup-Clean_example : Clean 10 database (cleanup true world).db
cleanup-Clean_example = cleanup-Clean world (record { first = refl; second = refl })

abbrev bearer : AuthRequest
bearer = record { query_token = []; authorization = lit "Bearer t" }

authenticate-Admitted_example :
    Admitted runtime (extract_token bearer) database (authenticate runtime bearer world).0
authenticate-Admitted_example = authenticate-Admitted runtime bearer world

abbrev signed : SignedRequest
signed = record { signature = lit "7b7d"; body = some (lit "{}"); parsed = some Json.null }

check_signature_iff_example :
    (check_signature runtime (lit "k") signed ≡ proceed (some Json.null))
    ↔ ((is_empty signed.signature ≡ false) × Genuine runtime (lit "k") signed Json.null)
check_signature_iff_example = check_signature_iff runtime (lit "k") signed Json.null refl

abbrev seen_again : UpsertConversationParams
seen_again = record {
  conversation_key = lit "ch:u1";
  kakao_channel_id = lit "ch";
  plusfriend_user_key = lit "u1";
  callback_url = some (lit "https://bot.kakao.com/cb2");
  callback_expires_at = some 60;
}

abbrev refreshed : Database
refreshed = record database { conversations = refresh seen_again 10 conversation ∷ [] }

upserts :
    upsert_row (lit "c2") seen_again 10 database
    ≡ (ok (refresh seen_again 10 conversation), refreshed)
unfolding upsert_row kakao_relay.Prelude.find_where kakao_relay.Prelude.str_eq
    kakao_relay.Prelude.update_where
upserts = refl

upsert_row-Upserted_example :
    Upserted seen_again 10 database refreshed (refresh seen_again 10 conversation)
upsert_row-Upserted_example =
    upsert_row-Upserted (lit "c2") seen_again 10 database (refresh seen_again 10 conversation)
      refreshed upserts

-- The world after the reply.
abbrev replied : World
replied = (reply runtime (some alice) (some answer_request) world).1

replies : reply runtime (some alice) (some answer_request) world ≡ (delivered 10, replied)
unfolding reply kakao_relay.Service.Message.find_inbound_by_id
    kakao_relay.Repository.Inbound.find_by_id kakao_relay.Prelude.find_where
    kakao_relay.Prelude.str_eq kakao_relay.Service.Message.create_outbound
    kakao_relay.Repository.Outbound.create kakao_relay.Service.Callback.send_callback
    kakao_relay.Service.Callback.has_allowed_suffix kakao_relay.Prelude.has_suffix
    kakao_relay.Prelude.to_lower kakao_relay.Service.Message.mark_outbound_sent
    kakao_relay.Repository.Outbound.mark_sent
replies = refl

reply-Delivers_example :
    (url : Str) × (MayReply runtime alice (lit "m1") database 10 url
      × Delivers runtime answer_request url world replied)
reply-Delivers_example = reply-Delivers runtime alice answer_request world replied 10 replies
