-- ===== src/Repository/Consistent/Kept.antt =====
-- Every statement of internal/repository keeps the statuses consistent.
use kakao_relay.Prelude.{
  ℕ, Str, str_eq, ◌||◌, ◌&&◌, refl, Option, none, some, [], ◌∷◌, ◌++◌, All-append, All-select_keep,
  select, is_some, find_where, delete_where, Bool-cases, Option-cases, inl, inr,
}
use kakao_relay.Prelude.Keys.{All-update_where, All-mapped}
use kakao_relay.Model.{ℤ, Json, InboundMessage}
use kakao_relay.World.{Database, World}
use kakao_relay.Repository.Accounts
use kakao_relay.Repository.Conversations
use kakao_relay.Repository.Inbound
use kakao_relay.Repository.Outbound
use kakao_relay.Repository.Sessions
use kakao_relay.Repository.Statements.{KeptBy, linked}
use kakao_relay.Repository.WellFormed.Chats.{upsert-refreshes, upsert-inserts}
use kakao_relay.Repository.Consistent.{Consistent}
use kakao_relay.Repository.Consistent.Tables.{
  with_accounts-Consistent, with_sessions-Consistent, with_conversations-Consistent,
  with_inbound-Consistent, with_outbound-Consistent, closed-fits, metadata-fits,
  unlink_session-fits, unlink_conversation-fits, set_state-fits, unlink_outbound-fits,
}

insert_account-Consistent :
    (id hash : Str) (limit : ℤ) (now : ℕ) (w : World)
    → Consistent w.db
    → Consistent (Accounts.insert_account (Accounts.new_account id hash limit now) hash w).1
unfolding Accounts.insert_account
insert_account-Consistent id hash limit now w c =
    elim (Bool-cases (is_some (find_where (Accounts.clashes id hash) w.db.accounts))) [
      | inl clash ↦ rw clash c
      | inr free ↦ rw free (with_accounts-Consistent w.db c _)
    ]

update_token-Consistent :
    (id hash : Str) (now : ℕ) (db : Database)
    → Consistent db
    → Consistent (Accounts.update_token_row id hash now db).1
unfolding Accounts.update_token_row
update_token-Consistent id hash now db c =
    elim (Bool-cases (
      is_some (find_where (Accounts.has_id id) db.accounts)
      && is_some (find_where (Accounts.taken id hash) db.accounts))) [
        | inl clash ↦ rw clash c
        | inr free ↦ rw free (with_accounts-Consistent db c _)
      ]

insert_session-Consistent :
    (id hash code : Str) (expires_at : ℕ) (metadata : Option Json) (now : ℕ) (db : Database)
    → Consistent db
    → Consistent
        (Sessions.insert_session (Sessions.new_session id hash code expires_at metadata now) db).1
unfolding Sessions.insert_session
insert_session-Consistent id hash code expires_at metadata now db c =
    let new = Sessions.new_session id hash code expires_at metadata now in
    elim (Bool-cases (is_some (find_where (Sessions.clashes new) db.sessions))) [
      | inl clash ↦ rw clash c
      | inr free ↦ rw free (
          with_sessions-Consistent db c (db.sessions ++ new ∷ [])
            (All-append _ db.sessions (new ∷ []) c.sessions (refl, tt)))
    ]

delete_account-Consistent :
    (id : Str) (db : Database) → Consistent db → Consistent (Accounts.delete_account id db)
unfolding Accounts.delete_account delete_where
delete_account-Consistent id db c = record {
  sessions =
      All-mapped _ _ (Accounts.unlink_session id) (λ s h. unlink_session-fits id s.status s h)
        db.sessions c.sessions;
  conversations =
      All-mapped _ _ (Accounts.unlink_conversation id) (unlink_conversation-fits id)
        db.conversations c.conversations;
  inbound = All-select_keep _ _ db.inbound c.inbound;
  outbound =
      All-mapped _ _
        (Accounts.unlink_outbound
          (select (λ (m : InboundMessage). str_eq m.account_id id) db.inbound))
        (unlink_outbound-fits _) _ (All-select_keep _ _ db.outbound c.outbound);
}

upsert_row-Consistent :
    (id : Str) (p : Conversations.UpsertConversationParams) (now : ℕ) (db : Database)
    → Consistent db
    → Consistent (Conversations.upsert_row id p now db).1
upsert_row-Consistent id p now db c =
    elim (Option-cases (find_where (Conversations.has_key p.conversation_key) db.conversations)) [
      | inr (row, found) ↦ rw (upsert-refreshes id p now db row found) (
          with_conversations-Consistent db c _ (
            All-update_where _ (Conversations.has_key p.conversation_key)
              (Conversations.refresh p now) (λ m h. h) db.conversations c.conversations))
      | inl fresh ↦
          rw (upsert-inserts id p now db fresh)
            (elim (Bool-cases
              (is_some (find_where (Conversations.clashes id p) db.conversations))) [
                | inl clash ↦ rw clash c
                | inr free ↦ rw free (
                    with_conversations-Consistent db c _ (
                      All-append _ db.conversations (Conversations.new_conversation id p now ∷ [])
                        c.conversations (refl, tt)))
              ])
    ]

insert_inbound-Consistent :
    (id : Str) (p : Inbound.CreateInboundParams) (now : ℕ) (db : Database)
    → Consistent db
    → Consistent (Inbound.insert_message id p now db).1
unfolding Inbound.insert_message
insert_inbound-Consistent id p now db c =
    elim (Bool-cases (
      is_some (
        find_where (λ m. Inbound.has_id id m || Inbound.same_event p.source_event_id m)
          db.inbound))) [
            | inl clash ↦ rw clash c
            | inr free ↦ elim (Bool-cases (linked (some p.account_id) db.accounts)) [
              | inr unknown ↦ rw (free, unknown) c
              | inl known ↦
                  rw (free, known)
                    (with_inbound-Consistent db c _ (
                      All-append _ db.inbound (Inbound.new_message id p now ∷ []) c.inbound
                        (refl, tt)))
            ]
          ]

insert_outbound-Consistent :
    (id : Str) (p : Outbound.CreateOutboundParams) (now : ℕ) (db : Database) (o : Option Json)
    → Consistent db
    → Consistent (Outbound.insert_payload id p now db o).1
unfolding Outbound.insert_payload
insert_outbound-Consistent id p now db none c = c
insert_outbound-Consistent id p now db (some payload) c =
    elim (Bool-cases (is_some (find_where (Outbound.has_id id) db.outbound))) [
      | inl clash ↦ rw clash c
      | inr free ↦
          elim (Bool-cases (
            linked (some p.account_id) db.accounts
            && Outbound.inbound_exists p.inbound_message_id db.inbound)) [
              | inr unknown ↦ rw (free, unknown) c
              | inl known ↦
                  rw (free, known)
                    (with_outbound-Consistent db c _ (
                      All-append _ db.outbound (Outbound.new_message id p payload now ∷ [])
                        c.outbound (refl, tt)))
            ]
    ]

-- The columns that go with a status are set by the statement that sets the status, and no other
-- statement touches them.
pub Consistent-KeptBy : KeptBy Consistent
unfolding Outbound.insert_message delete_where
Consistent-KeptBy = record {
  insert_account = insert_account-Consistent;
  update_token = update_token-Consistent;
  delete_account = delete_account-Consistent;
  insert_session = insert_session-Consistent;
  set_paired = λ p account_id key now db linked c. with_sessions-Consistent db c _ (
      All-update_where _ p (Sessions.set_paired account_id key now) (λ s h. refl) db.sessions
        c.sessions);
  set_status = λ p st now db closed c. with_sessions-Consistent db c _ (
      All-update_where _ p (Sessions.set_status st now) (λ s h. closed-fits st _ closed) db.sessions
        c.sessions);
  set_metadata = λ p metadata now db c. with_sessions-Consistent db c _ (
      All-update_where _ p (Sessions.set_metadata metadata now)
        (λ s h. metadata-fits metadata now s.status s h) db.sessions c.sessions);
  delete_sessions =
      λ p db c. with_sessions-Consistent db c _ (All-select_keep _ _ db.sessions c.sessions);
  upsert_row = upsert_row-Consistent;
  set_state = λ p st account_id now db linked fits c. with_conversations-Consistent db c _ (
      All-update_where _ p (Conversations.set_state st account_id now)
        (λ m h. set_state-fits st account_id now m fits) db.conversations c.conversations);
  delete_conversations = λ p db c.
      with_conversations-Consistent db c _ (All-select_keep _ _ db.conversations c.conversations);
  insert_inbound = insert_inbound-Consistent;
  set_delivered = λ id now db c. with_inbound-Consistent db c _ (
      All-update_where _ (Inbound.has_id id) (Inbound.set_delivered now) (λ m h. refl) db.inbound
        c.inbound);
  set_expired = λ now db c. with_inbound-Consistent db c _ (
      All-update_where _ (Inbound.is_overdue now) Inbound.set_expired (λ m h. refl) db.inbound
        c.inbound);
  insert_outbound = λ id p now db c. insert_outbound-Consistent id p now db p.response_payload c;
  set_sent = λ id now db c. with_outbound-Consistent db c _ (
      All-update_where _ (Outbound.has_id id) (Outbound.set_sent now) (λ m h. refl) db.outbound
        c.outbound);
  set_failed = λ id e db c. with_outbound-Consistent db c _ (
      All-update_where _ (Outbound.has_id id) (Outbound.set_failed e) (λ m h. refl) db.outbound
        c.outbound);
}
