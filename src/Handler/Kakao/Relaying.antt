-- ===== src/Handler/Kakao/Relaying.antt =====
-- Which messages the webhook puts into the queue, and for whom.
use kakao_relay.Prelude.{
  ℕ, Str, str_eq, Bool, true, false, ◌||◌, Option, none, some, List, [], ◌∷◌, ◌++◌, ◌≡◌, refl,
  subst, arith, ◌⊎◌, inl, inr, Bool-cases, find_where, is_some,
}
use kakao_relay.Model.{Account, ConversationMapping, InboundMessage, is_paired}
use kakao_relay.World.{Database, World, Event, Result, ok, err, next, after}
use kakao_relay.Runtime.{Runtime}
use kakao_relay.Broker.{publish}
use kakao_relay.Repository.Query.{insert_context}
use kakao_relay.Repository.Query.Cases.{db_call-Ends}
use kakao_relay.Repository.Inbound
use kakao_relay.Repository.Inbound.{new_message, insert_message}
use kakao_relay.Repository.Conversations
use kakao_relay.Service.Conversation.{find_or_create, upsert_params}
use kakao_relay.Service.Message.{create_inbound}
use kakao_relay.Handler.Command.{Command, parse_command}
use kakao_relay.Handler.Types.{KakaoWebhookRequest, get_channel_id, get_plusfriend_user_key}
use kakao_relay.Handler.Kakao.{
  relay_message, publish_created, on_utterance, on_conversation, handle_webhook, inbound_params,
  message_event, key_of, callback_url_of, callback_expiry_of,
}
use kakao_relay.Handler.Kakao.Commands.{inbound_of, handle_command-inbound}

inbound-publish :
    (channel : Str) (e : Event) (w : World) → inbound_of (publish channel e w).1 ≡ inbound_of w
unfolding publish
inbound-publish channel e w = ground arith

-- A new message: the one that the request makes for the account, under some id.
abbrev pub Enqueues :
    KakaoWebhookRequest → ℕ → ℕ → Str → List InboundMessage → List InboundMessage → Type 0
Enqueues r ttl now account_id before after =
    (id : Str) × (after ≡ before ++ new_message id (inbound_params r ttl now account_id) now ∷ [])

inbound-insert :
    (id : Str) (r : KakaoWebhookRequest) (ttl now : ℕ) (account_id : Str) (db : Database)
    → ((insert_message id (inbound_params r ttl now account_id) now db).1.inbound ≡ db.inbound)
      ⊎ Enqueues r ttl now account_id db.inbound
          (insert_message id (inbound_params r ttl now account_id) now db).1.inbound
unfolding insert_message
inbound-insert id r ttl now account_id db =
    let p = inbound_params r ttl now account_id in
    elim (Bool-cases
      (is_some (find_where (λ m. Inbound.has_id id m || Inbound.same_event none m) db.inbound))) [
        | inl taken ↦ rw taken (inl refl)
        | inr free ↦
            elim (Bool-cases
              (is_some (find_where (λ (a : Account). str_eq a.id account_id) db.accounts))) [
                | inl known ↦ rw (free, known) (inr (id, refl))
                | inr gone ↦ rw (free, gone) (inl refl)
              ]
      ]

inbound-create :
    (r : KakaoWebhookRequest) (ttl : ℕ) (account_id : Str) (w : World)
    → (inbound_of (create_inbound (inbound_params r ttl w.now account_id) w).1 ≡ inbound_of w)
      ⊎ Enqueues r ttl w.now account_id
          (inbound_of w)
          (inbound_of (create_inbound (inbound_params r ttl w.now account_id) w).1)
unfolding create_inbound Inbound.create insert_context
inbound-create r ttl account_id w =
    let (id, rest) = next [] w.uuids in
    let run = λ (v : World). insert_message id (inbound_params r ttl w.now account_id) v.now v.db in
    elim (db_call-Ends run (record w { uuids = rest })) [
      | inl (e, failed) ↦ rw failed (inl refl)
      | inr done ↦ rw done (inbound-insert id r ttl w.now account_id w.db)
    ]

inbound-publish_created :
    (account_id : Str) (o : Result InboundMessage) (w : World)
    → inbound_of (publish_created account_id (o, w)).1 ≡ inbound_of w
unfolding publish_created
inbound-publish_created account_id (err e) w = refl
inbound-publish_created account_id (ok m) w = inbound-publish account_id (message_event m) w

-- What the webhook may do with the queue: nothing, or, for an utterance that is no command in a
-- conversation that is paired, add the message of the request for the paired account.
abbrev pub Queues :
    Runtime
    → KakaoWebhookRequest
    → ℕ
    → ℕ
    → ConversationMapping
    → List InboundMessage
    → List InboundMessage
    → Type 0
Queues rt r ttl now conv before after =
    (after ≡ before)
    ⊎ ((account_id : Str) × ((parse_command rt.upper_table r.utterance ≡ none)
          × ((is_paired conv.state ≡ true)
              × ((conv.account_id ≡ some account_id)
                  × Enqueues r ttl now account_id before after))))

relay_message-Queues :
    (rt : Runtime) (r : KakaoWebhookRequest) (ttl : ℕ) (conv : ConversationMapping) (w : World)
    (b : Bool) (o : Option Str)
    → parse_command rt.upper_table r.utterance ≡ none
    → is_paired conv.state ≡ b
    → conv.account_id ≡ o
    → Queues rt r ttl w.now conv (inbound_of w) (inbound_of (relay_message r ttl b o w).1)
unfolding relay_message
relay_message-Queues rt r ttl conv w true (some account_id) plain is same =
    let (o, w') = create_inbound (inbound_params r ttl w.now account_id) w in
    rw (inbound-publish_created account_id o w') (elim (inbound-create r ttl account_id w) [
      | inl kept ↦ inl kept
      | inr new ↦ inr (account_id, (plain, (is, (same, new))))
    ])
relay_message-Queues rt r ttl conv w true none plain is same = inl refl
relay_message-Queues rt r ttl conv w false (some _) plain is same = inl refl
relay_message-Queues rt r ttl conv w false none plain is same = inl refl

on_utterance-Queues :
    (rt : Runtime) (r : KakaoWebhookRequest) (ttl : ℕ) (conv : ConversationMapping) (w : World)
    (o : Option Command)
    → parse_command rt.upper_table r.utterance ≡ o
    → Queues rt r ttl w.now conv (inbound_of w) (inbound_of (on_utterance rt r ttl conv o w).1)
unfolding on_utterance
on_utterance-Queues rt r ttl conv w (some cmd) h =
    inl (handle_command-inbound rt cmd conv (key_of r) w)
on_utterance-Queues rt r ttl conv w none h =
    relay_message-Queues rt r ttl conv w (is_paired conv.state) conv.account_id h refl refl

-- The row of the conversation that `find_or_create` gives for the request.
abbrev pub conversation_of : KakaoWebhookRequest → ℕ → World → Result ConversationMapping × World
conversation_of r ttl w =
    find_or_create (get_channel_id r) (get_plusfriend_user_key r) (callback_url_of r)
      (callback_expiry_of r ttl w.now) w

inbound-upsert_row :
    (id : Str) (p : Conversations.UpsertConversationParams) (now : ℕ) (db : Database)
    → (Conversations.upsert_row id p now db).1.inbound ≡ db.inbound
unfolding Conversations.upsert_row
inbound-upsert_row id p now db = ground arith

inbound-conversation :
    (r : KakaoWebhookRequest) (ttl : ℕ) (w : World)
    → (inbound_of (conversation_of r ttl w).1 ≡ inbound_of w)
      × ((conversation_of r ttl w).1.now ≡ w.now)
unfolding find_or_create Conversations.upsert insert_context
inbound-conversation r ttl w =
    let (id, rest) = next [] w.uuids in
    let p =
      upsert_params (get_channel_id r) (get_plusfriend_user_key r) (callback_url_of r)
        (callback_expiry_of r ttl w.now) in
    let run = λ (v : World). Conversations.upsert_row id p v.now v.db in
    elim (db_call-Ends run (record w { uuids = rest })) [
      | inl (e, failed) ↦ rw failed (refl, refl)
      | inr done ↦ rw done (inbound-upsert_row id p w.now w.db, refl)
    ]

-- What a request may do with the queue, the row of its conversation given.
abbrev pub Relays :
    Runtime
    → KakaoWebhookRequest
    → ℕ
    → ℕ
    → Result ConversationMapping
    → List InboundMessage
    → List InboundMessage
    → Type 0
Relays rt r ttl now o before after =
    (after ≡ before)
    ⊎ ((conv : ConversationMapping) × ((o ≡ ok conv) × Queues rt r ttl now conv before after))

on_conversation-Relays :
    (rt : Runtime) (r : KakaoWebhookRequest) (ttl : ℕ) (o : Result ConversationMapping) (v : World)
    → Relays rt r ttl v.now o (inbound_of v) (inbound_of (on_conversation rt r ttl (o, v)).1)
unfolding on_conversation
on_conversation-Relays rt r ttl (err e) v = inl refl
on_conversation-Relays rt r ttl (ok conv) v = inr (
  conv,
  (refl, on_utterance-Queues rt r ttl conv v (parse_command rt.upper_table r.utterance) refl),
)

-- Whichever calls fail, a webhook request leaves the inbound messages as they were, or it is an
-- utterance that is no command in a conversation whose row is paired with an account, and it
-- adds one message: the request's, for that account, queued, with the request's callback.
pub handle_webhook-Relays :
    (rt : Runtime) (ttl : ℕ) (r : KakaoWebhookRequest) (w : World)
    → Relays rt r ttl w.now
        (conversation_of r ttl w).0
        (inbound_of w)
        (inbound_of (handle_webhook rt ttl r w).1)
unfolding handle_webhook
handle_webhook-Relays rt ttl r w =
    let (o, v) = conversation_of r ttl w in
    let (same, now) = inbound-conversation r ttl w in
    subst (λ ms. Relays rt r ttl w.now o ms (inbound_of (on_conversation rt r ttl (o, v)).1)) same
      (subst
        (λ n. Relays rt r ttl n o (inbound_of v) (inbound_of (on_conversation rt r ttl (o, v)).1))
        now (on_conversation-Relays rt r ttl o v))
