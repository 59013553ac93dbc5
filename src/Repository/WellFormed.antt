-- ===== src/Repository/WellFormed.antt =====
-- The constraints of internal/database/schema.sql as a property of the tables.

pub mod Deletions
pub mod Owners
pub mod Messages
pub mod Chats
pub mod Kept
use kakao_relay.Prelude.{Str, str_eq, ◌&&◌, Bool, true, ◌≡◌, Option, some, List, All}
use kakao_relay.Prelude.Keys.{Distinct}
use kakao_relay.Prelude.Unique.{Unique, same_value}
use kakao_relay.Model.{Account, ConversationMapping, InboundMessage, OutboundMessage, Session}
use kakao_relay.World.{Database}
use kakao_relay.Repository.Outbound.{inbound_exists}
use kakao_relay.Repository.Statements.{linked}

-- The clashes that the three unique indexes exclude.
abbrev pub same_hash : Account → Account → Bool
same_hash a b = same_value a.relay_token_hash b.relay_token_hash

abbrev pub same_chat : ConversationMapping → ConversationMapping → Bool
same_chat c d =
    str_eq c.kakao_channel_id d.kakao_channel_id
    && str_eq c.plusfriend_user_key d.plusfriend_user_key

abbrev pub same_source : InboundMessage → InboundMessage → Bool
same_source m n = same_value m.source_event_id n.source_event_id

-- Ids are unique, and so are token hashes, but for NULL.
pub record AccountsOk (rows : List Account) : Type 0 where
  pub ids : Distinct (λ (a : Account). a.id) rows
  pub hashes : Unique same_hash rows

-- The sessions over the accounts: ids, token hashes and pairing codes are unique.
pub record SessionsOk (accounts : List Account) (rows : List Session) : Type 0 where
  pub ids : Distinct (λ (s : Session). s.id) rows
  pub hashes : Distinct (λ (s : Session). s.session_token_hash) rows
  pub codes : Distinct (λ (s : Session). s.pairing_code) rows
  pub links : All (λ (s : Session). linked s.account_id accounts ≡ true) rows

-- The conversations: ids and keys are unique, and so are the pairs of channel and user.
pub record ConversationsOk (accounts : List Account) (rows : List ConversationMapping)
    : Type 0 where
  pub ids : Distinct (λ (c : ConversationMapping). c.id) rows
  pub keys : Distinct (λ (c : ConversationMapping). c.conversation_key) rows
  pub chats : Unique same_chat rows
  pub links : All (λ (c : ConversationMapping). linked c.account_id accounts ≡ true) rows

-- The inbound messages: ids are unique, and so are source events, but for NULL.
pub record InboundOk (accounts : List Account) (rows : List InboundMessage) : Type 0 where
  pub ids : Distinct (λ (m : InboundMessage). m.id) rows
  pub events : Unique same_source rows
  pub links : All (λ (m : InboundMessage). linked (some m.account_id) accounts ≡ true) rows

pub record OutboundOk (accounts : List Account) (inbound : List InboundMessage)
    (rows : List OutboundMessage) : Type 0 where
  pub ids : Distinct (λ (m : OutboundMessage). m.id) rows
  pub links : All (λ (m : OutboundMessage). linked (some m.account_id) accounts ≡ true) rows
  pub replies :
      All (λ (m : OutboundMessage). inbound_exists m.inbound_message_id inbound ≡ true) rows

-- Every unique column and index of the schema is unique, and every account and message that a row
-- names is a row.
pub record WellFormed (db : Database) : Type 0 where
  pub accounts : AccountsOk db.accounts
  pub sessions : SessionsOk db.accounts db.sessions
  pub conversations : ConversationsOk db.accounts db.conversations
  pub inbound : InboundOk db.accounts db.inbound
  pub outbound : OutboundOk db.accounts db.inbound db.outbound
