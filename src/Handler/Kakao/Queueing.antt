-- ===== src/Handler/Kakao/Queueing.antt =====
-- When the webhook relays a message.
use kakao_relay.Prelude.{
  ℕ, Str, str_eq, Bool, true, ◌||◌, Option, none, some, List, [], ◌∷◌, ◌++◌, ◌≡◌, refl, ap, ap₂,
  ◌∙◌, arith, find_where, update_where, is_some,
}
use kakao_relay.Model.{Account, ConversationMapping, InboundMessage, is_paired}
use kakao_relay.World.{Database, World, Event, ok, next, after}
use kakao_relay.Runtime.{Runtime}
use kakao_relay.Broker.{message_channel, publish}
use kakao_relay.Repository.Inbound
use kakao_relay.Repository.Inbound.{new_message, insert_message}
use kakao_relay.Repository.Conversations
use kakao_relay.Repository.Conversations.{UpsertConversationParams, refresh, upsert_row}
use kakao_relay.Repository.Query.Cases.{Answers, db_call-Answers}
use kakao_relay.Repository.Query.{insert_context}
use kakao_relay.Service.Conversation.{find_or_create, upsert_params}
use kakao_relay.Service.Message.{create_inbound}
use kakao_relay.Handler.Command.{parse_command}
use kakao_relay.Handler.Types.{
  KakaoWebhookRequest, new_callback_response, get_channel_id, get_plusfriend_user_key,
}
use kakao_relay.Handler.Kakao.{
  relay_message, publish_created, on_utterance, on_conversation, handle_webhook, inbound_params,
  message_event, key_of, callback_url_of, callback_expiry_of,
}

-- The id of the next inbound message: the first one goes to the upsert of the conversation.
abbrev pub message_id : World → Str
message_id w = (next [] (next [] w.uuids).1).0

-- The message that the request becomes.
abbrev pub message_of : KakaoWebhookRequest → ℕ → Str → World → InboundMessage
message_of r ttl account_id w =
    new_message (message_id w) (inbound_params r ttl w.now account_id) w.now

-- An utterance of a paired conversation that can be stored and published.
pub record Relayable (rt : Runtime) (r : KakaoWebhookRequest) (c : ConversationMapping)
    (account_id : Str) (w : World) : Type 0 where
  pub plain : parse_command rt.upper_table r.utterance ≡ none
  pub found : find_where (Conversations.has_key (key_of r)) w.db.conversations ≡ some c
  pub is : is_paired c.state ≡ true
  pub linked : c.account_id ≡ some account_id
  pub known : is_some (find_where (λ (a : Account). str_eq a.id account_id) w.db.accounts) ≡ true
  pub fresh_id : find_where (Inbound.has_id (message_id w)) w.db.inbound ≡ none
  pub first : Answers w
  pub second : Answers (after w)
  pub redis : (next none w.redis_faults).0 ≡ none

-- The parameters of the upsert.
abbrev pub seen : KakaoWebhookRequest → ℕ → ℕ → UpsertConversationParams
seen r ttl now =
    upsert_params (get_channel_id r) (get_plusfriend_user_key r) (callback_url_of r)
      (callback_expiry_of r ttl now)

-- The world with the conversation's row brought up to date.
abbrev pub refreshed : KakaoWebhookRequest → ℕ → World → World
refreshed r ttl w = record w {
  db_faults = (next none w.db_faults).1;
  uuids = (next [] w.uuids).1;
  db = record w.db {
    conversations =
        update_where (Conversations.has_key (key_of r)) (refresh (seen r ttl w.now) w.now)
          w.db.conversations;
  };
}

-- The world with the message of the request stored and published, too.
abbrev pub relayed : KakaoWebhookRequest → ℕ → Str → World → World
relayed r ttl account_id w =
    let v = refreshed r ttl w in
    let m = message_of r ttl account_id w in
    record v {
      db_faults = (next none v.db_faults).1;
      redis_faults = (next none w.redis_faults).1;
      uuids = (next [] v.uuids).1;
      db = record v.db { inbound = w.db.inbound ++ m ∷ [] };
      published = w.published ++ (message_channel account_id, message_event m) ∷ [];
    }

no_event :
    (id : Str) (rows : List InboundMessage)
    → find_where (λ m. Inbound.has_id id m || Inbound.same_event none m) rows
      ≡ find_where (Inbound.has_id id) rows
unfolding find_where
no_event id [] = refl
no_event id (m ∷ rows) = ground (arith, no_event id rows)

upsert_row-found :
    (id : Str) (p : UpsertConversationParams) (now : ℕ) (db : Database) (c : ConversationMapping)
    → find_where (Conversations.has_key p.conversation_key) db.conversations ≡ some c
    → upsert_row id p now db ≡ (
      ok (refresh p now c),
      record db {
        conversations =
            update_where
              (Conversations.has_key p.conversation_key)
              (refresh p now)
              db.conversations;
      },
    )
unfolding upsert_row
upsert_row-found id p now db c found = ground (arith, found)

pub conversation-found :
    (r : KakaoWebhookRequest) (ttl : ℕ) (w : World) (c : ConversationMapping)
    → Answers w
    → find_where (Conversations.has_key (key_of r)) w.db.conversations ≡ some c
    → find_or_create
        (get_channel_id r)
        (get_plusfriend_user_key r)
        (callback_url_of r)
        (callback_expiry_of r ttl w.now)
        w
      ≡ (ok (refresh (seen r ttl w.now) w.now c), refreshed r ttl w)
unfolding find_or_create Conversations.upsert insert_context
conversation-found r ttl w c answers found =
    let (id, rest) = next [] w.uuids in
    let run = λ (v : World). upsert_row id (seen r ttl w.now) v.now v.db in
    rw (db_call-Answers run (record w { uuids = rest }) answers)
      (rw (upsert_row-found id (seen r ttl w.now) w.now w.db c found) refl)

insert_message-new :
    (id : Str) (p : Inbound.CreateInboundParams) (now : ℕ) (db : Database)
    → p.source_event_id ≡ none
    → find_where (Inbound.has_id id) db.inbound ≡ none
    → is_some (find_where (λ (a : Account). str_eq a.id p.account_id) db.accounts) ≡ true
    → insert_message id p now db
      ≡ (ok (new_message id p now), record db { inbound = db.inbound ++ new_message id p now ∷ [] })
unfolding insert_message
insert_message-new id p now db no_id new known = rw (no_id, no_event id db.inbound, new, known) refl

create_inbound-new :
    (r : KakaoWebhookRequest) (ttl now : ℕ) (account_id : Str) (w : World)
    → Answers w
    → find_where (Inbound.has_id (next [] w.uuids).0) w.db.inbound ≡ none
    → is_some (find_where (λ (a : Account). str_eq a.id account_id) w.db.accounts) ≡ true
    → create_inbound (inbound_params r ttl now account_id) w ≡ (
      ok (new_message (next [] w.uuids).0 (inbound_params r ttl now account_id) w.now),
      record w {
        db_faults = (next none w.db_faults).1;
        uuids = (next [] w.uuids).1;
        db = record w.db {
          inbound =
              w.db.inbound
              ++ new_message (next [] w.uuids).0 (inbound_params r ttl now account_id) w.now ∷ [];
        };
      },
    )
unfolding create_inbound Inbound.create insert_context
create_inbound-new r ttl now account_id w answers new known =
    let (id, rest) = next [] w.uuids in
    let p = inbound_params r ttl now account_id in
    let run = λ (v : World). insert_message id p v.now v.db in
    rw (db_call-Answers run (record w { uuids = rest }) answers)
      (rw (insert_message-new id p w.now w.db refl new known) refl)

publish-answers :
    (channel : Str) (e : Event) (w : World)
    → (next none w.redis_faults).0 ≡ none
    → (publish channel e w).1 ≡ record w {
      redis_faults = (next none w.redis_faults).1;
      published = w.published ++ (message_channel channel, e) ∷ [];
    }
unfolding publish
publish-answers channel e w h = ground (arith, h)

module _ (rt : Runtime) (r : KakaoWebhookRequest) (ttl : ℕ) (account_id : Str) where
  relay-linked :
      (o : Option Str) (b : Bool) (v : World)
      → b ≡ true
      → o ≡ some account_id
      → relay_message r ttl b o v
        ≡ publish_created account_id (create_inbound (inbound_params r ttl v.now account_id) v)
  unfolding relay_message
  relay-linked o b v is linked = ap₂ (λ b o. relay_message r ttl b o v) is linked

  relay-queues :
      (c : ConversationMapping) (w : World)
      → Relayable rt r c account_id w
      → publish_created account_id
          (create_inbound (inbound_params r ttl w.now account_id) (refreshed r ttl w))
        ≡ (new_callback_response, relayed r ttl account_id w)
  unfolding publish_created
  relay-queues c w ready =
      ap (publish_created account_id) (
        create_inbound-new r ttl w.now account_id (refreshed r ttl w) ready.second ready.fresh_id
          ready.known)
      ∙ ap (λ (v : World). (new_callback_response, v))
          (publish-answers account_id (message_event (message_of r ttl account_id w)) _ ready.redis)

  -- When an utterance is no command, its conversation is stored as paired with an account that is
  -- stored, the next id is new and the next calls of the database and of Redis do not fail, the
  -- webhook answers that it will call back and has stored the request's message in the queue of
  -- that account, published it to the account's channel, and brought the conversation's callback
  -- and time up to date. Nothing else has changed.
  pub handle_webhook-relayed :
      (c : ConversationMapping) (w : World)
      → Relayable rt r c account_id w
      → handle_webhook rt ttl r w ≡ (new_callback_response, relayed r ttl account_id w)
  unfolding handle_webhook on_conversation on_utterance
  handle_webhook-relayed c w ready =
      let c' = refresh (seen r ttl w.now) w.now c in
      let v = refreshed r ttl w in
      ap (on_conversation rt r ttl) (conversation-found r ttl w c ready.first ready.found)
      ∙ ap (λ cmd. on_utterance rt r ttl c' cmd v) ready.plain
      ∙ relay-linked c.account_id (is_paired c.state) v ready.is ready.linked
      ∙ relay-queues c w ready
