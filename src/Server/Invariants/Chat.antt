-- ===== src/Server/Invariants/Chat.antt =====
-- internal/handler/kakao.go: what the webhook keeps.
use kakao_relay.Prelude.{
  ℕ, Str, Bool, true, false, ◌≡◌, refl, sym, subst, Option, none, some, is_empty, arith, inl, inr,
  Bool-cases, str_eq_refl,
}
use kakao_relay.Model.{
  ConversationMapping, InboundMessage, Session, PairingState, is_paired, unpaired,
}
use kakao_relay.World.{Database, World, Event, Result, ok, err}
use kakao_relay.Runtime.{Runtime}
use kakao_relay.Broker.{publish}
use kakao_relay.Repository.Accounts
use kakao_relay.Repository.Inbound
use kakao_relay.Repository.Outbound
use kakao_relay.Repository.Sessions
use kakao_relay.Repository.Statements.{KeptBy, links}
use kakao_relay.Repository.Statements.Calls.{Keeps-get_context}
use kakao_relay.Repository.Statements.Writes.{
  upsert-Keeps, update_state-keeps, create_inbound-Keeps,
}
use kakao_relay.Service.Conversation.{update_state, find_or_create, upsert_params}
use kakao_relay.Service.Message.{create_inbound, get_quick_stats}
use kakao_relay.Service.Session.{
  SessionPairResult, success, invalid_code, internal_error, verify_pairing_code,
  publish_pairing_complete, publish_to,
}
use kakao_relay.Service.Session.Pairing.{paired_db, verify-Paired}
use kakao_relay.Handler.Command.{
  Command, CommandType, pair, unpair, status, help, unknown, parse_command,
}
use kakao_relay.Handler.Types.{KakaoWebhookRequest, get_channel_id, get_plusfriend_user_key}
use kakao_relay.Handler.Kakao.{
  announce, after_pairing, handle_pair, handle_unpair, status_of_account, handle_status,
  dispatch_command, handle_command, publish_created, relay_message, on_utterance, on_conversation,
  handle_webhook, webhook, key_of, inbound_params, callback_url_of, callback_expiry_of,
}
use kakao_relay.Server.Invariants.Pairing.{verify-keeps, find_where-last}

db-publish : (id : Str) (e : Event) (w : World) → (publish id e w).1.db ≡ w.db
unfolding publish
db-publish id e w = ground arith

db-announce :
    (key : Str) (r : Result (Option Session)) (w : World) → (announce key (r, w)).db ≡ w.db
unfolding announce publish_pairing_complete publish_to publish
db-announce key (ok (some s)) w = ground arith
db-announce key (ok none) w = refl
db-announce key (err e) w = refl

-- The account of a successful pairing is a row.
paired-links :
    (rt : Runtime) (code key : Str) (w w' : World) (id account_id token : Str)
    → verify_pairing_code rt code key w ≡ (success id account_id token, w')
    → links (some account_id) w'.db ≡ true
paired-links rt code key w w' id account_id token h =
    let p = verify-Paired rt code key w w' id account_id token h in
    subst (λ (d : Database). links (some account_id) d ≡ true) (sym p.rows)
      (subst (λ i. links (some i) (paired_db id key w.now p.account token w.db) ≡ true)
        p.same_account
        (find_where-last (Accounts.has_id p.account.id) w.db.accounts p.account
          (str_eq_refl p.account.id)))

-- `/status` only reads.
pub db-quick_stats : (rt : Runtime) (id : Str) (w : World) → (get_quick_stats rt id w).1.db ≡ w.db
unfolding get_quick_stats Inbound.count_by_account_id Inbound.count_by_account_id_since
    Outbound.count_by_account_id Outbound.count_by_account_id_since
    Outbound.count_by_account_id_and_status
db-quick_stats rt id w = ground arith

db-status_of_account :
    (rt : Runtime) (conv : ConversationMapping) (o : Option Str) (w : World)
    → (status_of_account rt conv o w).1.db ≡ w.db
unfolding status_of_account
db-status_of_account rt conv none w = refl
db-status_of_account rt conv (some id) w = db-quick_stats rt id w

db-handle_status :
    (rt : Runtime) (conv : ConversationMapping) (w : World) → (handle_status rt conv w).1.db ≡ w.db
unfolding handle_status
db-handle_status rt conv w = ground (arith, db-status_of_account rt conv conv.account_id w)

module _ (P : Database → Type 0) (law : KeptBy P) (rt : Runtime) where
  find_session-keeps : (id : Str) (w : World) → P w.db → P (Sessions.find_by_id id w).1.db
  unfolding Sessions.find_by_id
  find_session-keeps id w p = (Keeps-get_context P _).keeps w p

  after_pairing-keeps :
      (code key : Str) (w w' : World) (o : SessionPairResult)
      → verify_pairing_code rt code key w ≡ (o, w')
      → P w'.db
      → P (after_pairing key (o, w')).1.db
  unfolding after_pairing update_state
  after_pairing-keeps code key w w' invalid_code h p = p
  after_pairing-keeps code key w w' internal_error h p = p
  after_pairing-keeps code key w w' (success id account_id token) h p =
      let linked = paired-links rt code key w w' id account_id token h in
      let updated =
        update_state-keeps P law key PairingState.paired (some account_id) w' linked refl p in
      let v = (update_state key PairingState.paired (some account_id) w').1 in
      let (s, u) = Sessions.find_by_id id v in
      subst P (sym (db-announce key s u)) (find_session-keeps id v updated)

  handle_pair-keeps :
      (code : Str) (conv : ConversationMapping) (key : Str) (w : World)
      → P w.db
      → P (handle_pair rt code conv key w).1.db
  unfolding handle_pair
  handle_pair-keeps code conv key w p =
      let (o, w') = verify_pairing_code rt code key w in
      let done : P (after_pairing key (o, w')).1.db =
        after_pairing-keeps code key w w' o refl (verify-keeps P law rt code key w p) in
      elim (Bool-cases (is_empty code)) [
        | inl blank ↦ rw blank p
        | inr given ↦ elim (Bool-cases (is_paired conv.state)) [
          | inl already ↦ rw (given, already) p
          | inr free ↦ rw (given, free) done
        ]
      ]

  handle_unpair-keeps :
      (conv : ConversationMapping) (key : Str) (w : World)
      → P w.db
      → P (handle_unpair conv key w).1.db
  unfolding handle_unpair update_state
  handle_unpair-keeps conv key w p = elim (Bool-cases (is_paired conv.state)) [
    | inl is ↦ rw is (update_state-keeps P law key unpaired none w refl refl p)
    | inr not ↦ rw not p
  ]

  handle_status-keeps :
      (conv : ConversationMapping) (w : World) → P w.db → P (handle_status rt conv w).1.db
  handle_status-keeps conv w p = subst P (sym (db-handle_status rt conv w)) p

  dispatch-keeps :
      (type : CommandType) (code : Str) (conv : ConversationMapping) (key : Str) (w : World)
      → P w.db
      → P (dispatch_command rt type code conv key w).1.db
  unfolding dispatch_command
  dispatch-keeps pair code conv key w p = handle_pair-keeps code conv key w p
  dispatch-keeps unpair code conv key w p = handle_unpair-keeps conv key w p
  dispatch-keeps status code conv key w p = handle_status-keeps conv w p
  dispatch-keeps help code conv key w p = p
  dispatch-keeps unknown code conv key w p = p

  publish_created-keeps :
      (id : Str) (r : Result InboundMessage) (w : World)
      → P w.db
      → P (publish_created id (r, w)).1.db
  unfolding publish_created
  publish_created-keeps id (ok m) w p = subst P (sym (db-publish id _ w)) p
  publish_created-keeps id (err e) w p = p

  relay_message-keeps :
      (r : KakaoWebhookRequest) (ttl : ℕ) (is : Bool) (o : Option Str) (w : World)
      → P w.db
      → P (relay_message r ttl is o w).1.db
  unfolding relay_message create_inbound
  relay_message-keeps r ttl true (some id) w p =
      publish_created-keeps id _ _
        ((create_inbound-Keeps P law (inbound_params r ttl w.now id)).keeps w p)
  relay_message-keeps r ttl true none w p = p
  relay_message-keeps r ttl false o w p = p

  on_utterance-keeps :
      (r : KakaoWebhookRequest) (ttl : ℕ) (conv : ConversationMapping) (o : Option Command)
      (w : World)
      → P w.db
      → P (on_utterance rt r ttl conv o w).1.db
  unfolding on_utterance handle_command
  on_utterance-keeps r ttl conv (some cmd) w p =
      dispatch-keeps cmd.type cmd.code conv (key_of r) w p
  on_utterance-keeps r ttl conv none w p =
      relay_message-keeps r ttl (is_paired conv.state) conv.account_id w p

  on_conversation-keeps :
      (r : KakaoWebhookRequest) (ttl : ℕ) (o : Result ConversationMapping) (w : World)
      → P w.db
      → P (on_conversation rt r ttl (o, w)).1.db
  unfolding on_conversation
  on_conversation-keeps r ttl (err e) w p = p
  on_conversation-keeps r ttl (ok conv) w p =
      on_utterance-keeps r ttl conv (parse_command rt.upper_table r.utterance) w p

  -- A webhook request keeps what the statements keep.
  pub webhook-keeps :
      (ttl : ℕ) (o : Option KakaoWebhookRequest) (w : World) → P w.db → P (webhook rt ttl o w).1.db
  unfolding webhook handle_webhook find_or_create
  webhook-keeps ttl none w p = p
  webhook-keeps ttl (some r) w p = on_conversation-keeps r ttl _ _ (
      (upsert-Keeps P law (
          upsert_params (get_channel_id r) (get_plusfriend_user_key r) (callback_url_of r)
            (callback_expiry_of r ttl w.now))).keeps
        w p)
