-- ===== src/Repository/Statements.antt =====
-- The statements of internal/repository that write, as an interface: a predicate on the database
-- that each of them keeps. The laws say what a statement may rely on.
pub mod Calls
pub mod Writes
use kakao_relay.Prelude.{
  ℕ, Str, Bool, true, ◌≡◌, List, Option, none, some, is_some, find_where, update_where,
  delete_where,
}
use kakao_relay.Model.{
  ℤ, Account, ConversationMapping, PairingState, Session, SessionStatus, Json, is_closed_session,
  is_paired,
}
use kakao_relay.World.{Database, World}
use kakao_relay.Repository.Accounts
pub use kakao_relay.Repository.Accounts.{linked}
use kakao_relay.Repository.Conversations
use kakao_relay.Repository.Conversations.{UpsertConversationParams}
use kakao_relay.Repository.Inbound
use kakao_relay.Repository.Outbound
use kakao_relay.Repository.Sessions

abbrev pub links : Option Str → Database → Bool
links o db = linked o db.accounts

abbrev pub with_accounts : Database → List Account → Database
with_accounts db rows = record db { accounts = rows }

abbrev pub with_sessions : Database → List Session → Database
with_sessions db rows = record db { sessions = rows }

abbrev pub with_conversations : Database → List ConversationMapping → Database
with_conversations db rows = record db { conversations = rows }

pub record KeptBy (P : Database → Type 0) : Type 0 where
  pub insert_account :
      (id hash : Str) (limit : ℤ) (now : ℕ) (w : World)
      → P w.db
      → P (Accounts.insert_account (Accounts.new_account id hash limit now) hash w).1
  pub update_token :
      (id hash : Str) (now : ℕ) (db : Database)
      → P db
      → P (Accounts.update_token_row id hash now db).1
  pub delete_account : (id : Str) (db : Database) → P db → P (Accounts.delete_account id db)
  pub insert_session :
      (id hash code : Str) (expires_at : ℕ) (metadata : Option Json) (now : ℕ) (db : Database)
      → P db
      → P (Sessions.insert_session (Sessions.new_session id hash code expires_at metadata now) db).1
  pub set_paired :
      (p : Session → Bool) (account_id key : Str) (now : ℕ) (db : Database)
      → links (some account_id) db ≡ true
      → P db
      → P (with_sessions db (update_where p (Sessions.set_paired account_id key now) db.sessions))
  pub set_status :
      (p : Session → Bool) (st : SessionStatus) (now : ℕ) (db : Database)
      → is_closed_session st ≡ true
      → P db
      → P (with_sessions db (update_where p (Sessions.set_status st now) db.sessions))
  pub set_metadata :
      (p : Session → Bool) (metadata : Json) (now : ℕ) (db : Database)
      → P db
      → P (with_sessions db (update_where p (Sessions.set_metadata metadata now) db.sessions))
  pub delete_sessions :
      (p : Session → Bool) (db : Database)
      → P db
      → P (with_sessions db (delete_where p db.sessions))
  pub upsert_row :
      (id : Str) (p : UpsertConversationParams) (now : ℕ) (db : Database)
      → P db
      → P (Conversations.upsert_row id p now db).1
  pub set_state :
      (p : ConversationMapping → Bool) (st : PairingState) (account_id : Option Str) (now : ℕ)
      (db : Database)
      → links account_id db ≡ true
      → is_paired st ≡ is_some account_id
      → P db
      → P (
          with_conversations db
            (update_where p (Conversations.set_state st account_id now) db.conversations))
  pub delete_conversations :
      (p : ConversationMapping → Bool) (db : Database)
      → P db
      → P (with_conversations db (delete_where p db.conversations))
  pub insert_inbound :
      (id : Str) (p : Inbound.CreateInboundParams) (now : ℕ) (db : Database)
      → P db
      → P (Inbound.insert_message id p now db).1
  pub set_delivered :
      (id : Str) (now : ℕ) (db : Database)
      → P db
      → P (record db {
        inbound = update_where (Inbound.has_id id) (Inbound.set_delivered now) db.inbound;
      })
  pub set_expired :
      (now : ℕ) (db : Database)
      → P db
      → P (record db {
        inbound = update_where (Inbound.is_overdue now) Inbound.set_expired db.inbound;
      })
  pub insert_outbound :
      (id : Str) (p : Outbound.CreateOutboundParams) (now : ℕ) (db : Database)
      → P db
      → P (Outbound.insert_message id p now db).1
  pub set_sent :
      (id : Str) (now : ℕ) (db : Database)
      → P db
      → P (record db {
        outbound = update_where (Outbound.has_id id) (Outbound.set_sent now) db.outbound;
      })
  pub set_failed :
      (id e : Str) (db : Database)
      → P db
      → P (record db {
        outbound = update_where (Outbound.has_id id) (Outbound.set_failed e) db.outbound;
      })
