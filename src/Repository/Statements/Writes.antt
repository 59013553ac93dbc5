-- ===== src/Repository/Statements/Writes.antt =====
-- What the writing methods of internal/repository keep.
use kakao_relay.Prelude.{
  ℕ, Str, true, false, ◌&&◌, ◌≡◌, refl, Option, some, is_some, find_where, Bool, arith,
}
use kakao_relay.Model.{ℤ, Json, PairingState, is_paired, expired, disconnected}
use kakao_relay.World.{Database, World}
use kakao_relay.Repository.Accounts
use kakao_relay.Repository.Conversations
use kakao_relay.Repository.Inbound
use kakao_relay.Repository.Outbound
use kakao_relay.Repository.Sessions
use kakao_relay.Repository.Statements.{KeptBy, links}
use kakao_relay.Repository.Statements.Calls.{
  Keeps, Keeps-exec_context, Keeps-insert, Keeps-insert_context, Keeps-insert_at, Keeps-exec_at,
}

and-false : (b : Bool) → (b && false) ≡ false
and-false b = ground arith

module _ (P : Database → Type 0) (law : KeptBy P) where
  pub create_account-Keeps : (hash : Str) (limit : ℤ) → Keeps P (Accounts.create hash limit)
  unfolding Accounts.create
  create_account-Keeps hash limit =
      Keeps-insert P
        (λ id w. Accounts.insert_account (Accounts.new_account id hash limit w.now) hash w)
        (λ id w p. law.insert_account id hash limit w.now w p)

  pub update_token-Keeps : (id hash : Str) → Keeps P (Accounts.update_token id hash)
  unfolding Accounts.update_token
  update_token-Keeps id hash = Keeps-insert_context P _ λ w p. law.update_token id hash w.now w.db p

  pub delete_account-Keeps : (id : Str) → Keeps P (Accounts.delete id)
  unfolding Accounts.delete
  delete_account-Keeps id = Keeps-exec_context P _ λ w p. law.delete_account id w.db p

  pub create_session-Keeps :
      (hash code : Str) (expires_at : ℕ) (metadata : Option Json)
      → Keeps P (Sessions.create hash code expires_at metadata)
  unfolding Sessions.create
  create_session-Keeps hash code expires_at metadata =
      Keeps-insert P
        (λ id w.
          Sessions.insert_session (Sessions.new_session id hash code expires_at metadata w.now)
            w.db)
        (λ id w p. law.insert_session id hash code expires_at metadata w.now w.db p)

  pub mark_expired-Keeps : (id : Str) → Keeps P (Sessions.mark_expired id)
  unfolding Sessions.mark_expired Sessions.update_sessions
  mark_expired-Keeps id =
      Keeps-exec_context P _ λ w p. law.set_status (Sessions.has_id id) expired w.now w.db refl p

  pub mark_disconnected-Keeps : (id : Str) → Keeps P (Sessions.mark_disconnected id)
  unfolding Sessions.mark_disconnected Sessions.update_sessions
  mark_disconnected-Keeps id =
      Keeps-exec_context P _
        λ w p. law.set_status (Sessions.has_id id) disconnected w.now w.db refl p

  pub update_metadata-Keeps :
      (id : Str) (metadata : Json) → Keeps P (Sessions.update_metadata id metadata)
  unfolding Sessions.update_metadata Sessions.update_sessions
  update_metadata-Keeps id metadata =
      Keeps-exec_context P _ λ w p. law.set_metadata (Sessions.has_id id) metadata w.now w.db p

  pub delete_expired-Keeps : Keeps P Sessions.delete_expired
  unfolding Sessions.delete_expired
  delete_expired-Keeps = Keeps-exec_context P _ λ w p. law.delete_sessions _ w.db p

  pub delete_session-Keeps : (id : Str) → Keeps P (Sessions.delete id)
  unfolding Sessions.delete
  delete_session-Keeps id = Keeps-exec_context P _ λ w p. law.delete_sessions _ w.db p

  pub upsert-Keeps : (p : Conversations.UpsertConversationParams) → Keeps P (Conversations.upsert p)
  unfolding Conversations.upsert
  upsert-Keeps params =
      Keeps-insert P (λ id w. Conversations.upsert_row id params w.now w.db)
        (λ id w p. law.upsert_row id params w.now w.db p)

  pub delete_conversation-Keeps : (id : Str) → Keeps P (Conversations.delete id)
  unfolding Conversations.delete
  delete_conversation-Keeps id = Keeps-exec_context P _ λ w p. law.delete_conversations _ w.db p

  pub create_inbound-Keeps : (p : Inbound.CreateInboundParams) → Keeps P (Inbound.create p)
  unfolding Inbound.create
  create_inbound-Keeps params =
      Keeps-insert P (λ id w. Inbound.insert_message id params w.now w.db)
        (λ id w p. law.insert_inbound id params w.now w.db p)

  pub mark_delivered-Keeps : (id : Str) → Keeps P (Inbound.mark_delivered id)
  unfolding Inbound.mark_delivered Inbound.update_messages
  mark_delivered-Keeps id = Keeps-exec_context P _ λ w p. law.set_delivered id w.now w.db p

  pub mark_overdue-Keeps : Keeps P Inbound.mark_expired
  unfolding Inbound.mark_expired
  mark_overdue-Keeps = Keeps-exec_context P _ λ w p. law.set_expired w.now w.db p

  pub create_outbound-Keeps : (p : Outbound.CreateOutboundParams) → Keeps P (Outbound.create p)
  unfolding Outbound.create
  create_outbound-Keeps params =
      Keeps-insert P (λ id w. Outbound.insert_message id params w.now w.db)
        (λ id w p. law.insert_outbound id params w.now w.db p)

  pub mark_sent-Keeps : (id : Str) → Keeps P (Outbound.mark_sent id)
  unfolding Outbound.mark_sent Outbound.update_messages
  mark_sent-Keeps id = Keeps-exec_context P _ λ w p. law.set_sent id w.now w.db p

  pub mark_failed-Keeps : (id e : Str) → Keeps P (Outbound.mark_failed id e)
  unfolding Outbound.mark_failed Outbound.update_messages
  mark_failed-Keeps id e = Keeps-exec_context P _ λ w p. law.set_failed id e w.db p

  -- The two statements that set a link keep the predicate where the account is a row.
  pub mark_paired-keeps :
      (id account_id key : Str) (w : World)
      → links (some account_id) w.db ≡ true
      → P w.db
      → P (Sessions.mark_paired id account_id key w).1.db
  unfolding Sessions.mark_paired Sessions.update_sessions
  mark_paired-keeps id account_id key w linked p =
      (Keeps-exec_at P _ w p (law.set_paired _ account_id key w.now w.db linked p))

  pub update_state-keeps :
      (key : Str) (st : PairingState) (account_id : Option Str) (w : World)
      → links account_id w.db ≡ true
      → is_paired st ≡ is_some account_id
      → P w.db
      → P (Conversations.update_state key st account_id w).1.db
  unfolding Conversations.update_state Conversations.update_state_row
  update_state-keeps key st account_id w known fits p =
      let found = is_some (find_where (Conversations.has_key key) w.db.conversations) in
      Keeps-insert_at P _ w p
        (rw (known, and-false found) (law.set_state _ st account_id w.now w.db known fits p))
