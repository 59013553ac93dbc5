-- ===== src/Repository/Consistent/Tables.antt =====
-- Consistent statuses, table by table.
use kakao_relay.Prelude.{
  ℕ, Str, option_is, true, ◌≡◌, Option, none, List, All, is_some, find_where, Bool-cases, inl, inr,
  arith,
}
use kakao_relay.Model.{
  Account, Json, ConversationMapping, InboundMessage, OutboundMessage, OutboundMessageStatus,
  PairingState, Session, SessionStatus, is_closed_session, is_paired,
}
use kakao_relay.World.{Database}
use kakao_relay.Repository.Accounts
use kakao_relay.Repository.Conversations
use kakao_relay.Repository.Sessions
use kakao_relay.Repository.Statements.{with_accounts, with_sessions, with_conversations}
use kakao_relay.Repository.Consistent.{
  Consistent, session_fits, conversation_fits, inbound_fits, outbound_fits,
}

-- One table is replaced.
module _ (db : Database) (c : Consistent db) where
  pub with_accounts-Consistent : (rows : List Account) → Consistent (with_accounts db rows)
  with_accounts-Consistent rows = record {
    sessions = c.sessions;
    conversations = c.conversations;
    inbound = c.inbound;
    outbound = c.outbound;
  }

  pub with_sessions-Consistent :
      (rows : List Session)
      → All (λ (s : Session). session_fits s.status s ≡ true) rows
      → Consistent (with_sessions db rows)
  with_sessions-Consistent rows h = record {
    sessions = h;
    conversations = c.conversations;
    inbound = c.inbound;
    outbound = c.outbound;
  }

  pub with_conversations-Consistent :
      (rows : List ConversationMapping)
      → All (λ (m : ConversationMapping). conversation_fits m ≡ true) rows
      → Consistent (with_conversations db rows)
  with_conversations-Consistent rows h = record {
    sessions = c.sessions;
    conversations = h;
    inbound = c.inbound;
    outbound = c.outbound;
  }

  pub with_inbound-Consistent :
      (rows : List InboundMessage)
      → All (λ (m : InboundMessage). inbound_fits m.status m ≡ true) rows
      → Consistent (record db { inbound = rows })
  with_inbound-Consistent rows h = record {
    sessions = c.sessions;
    conversations = c.conversations;
    inbound = h;
    outbound = c.outbound;
  }

  pub with_outbound-Consistent :
      (rows : List OutboundMessage)
      → All (λ (m : OutboundMessage). outbound_fits m.status m ≡ true) rows
      → Consistent (record db { outbound = rows })
  with_outbound-Consistent rows h = record {
    sessions = c.sessions;
    conversations = c.conversations;
    inbound = c.inbound;
    outbound = h;
  }

-- A closed status fits every session.
pub closed-fits :
    (st : SessionStatus) (s : Session) → is_closed_session st ≡ true → session_fits st s ≡ true
closed-fits st s closed = ground arith

-- The metadata play no part.
pub metadata-fits :
    (metadata : Json) (now : ℕ) (st : SessionStatus) (s : Session)
    → session_fits st s ≡ true
    → session_fits st (Sessions.set_metadata metadata now s) ≡ true
metadata-fits metadata now st s h = ground arith

-- The loss of the link keeps a session and a conversation consistent.
pub unlink_session-fits :
    (id : Str) (st : SessionStatus) (s : Session)
    → session_fits st s ≡ true
    → session_fits st (Accounts.unlink_session id s) ≡ true
unlink_session-fits id st s h = ground arith

pub unlink_conversation-fits :
    (id : Str) (c : ConversationMapping)
    → conversation_fits c ≡ true
    → conversation_fits (Accounts.unlink_conversation id c) ≡ true
unlink_conversation-fits id c h = ground arith

pub set_state-fits :
    (st : PairingState) (account_id : Option Str) (now : ℕ) (c : ConversationMapping)
    → is_paired st ≡ is_some account_id
    → conversation_fits (Conversations.set_state st account_id now c) ≡ true
set_state-fits st account_id now c fits = ground arith

pub reference-fits :
    (st : OutboundMessageStatus) (m : OutboundMessage)
    → outbound_fits st m ≡ true
    → outbound_fits st (record m { inbound_message_id = none }) ≡ true
reference-fits st m h = ground arith

pub unlink_outbound-fits :
    (gone : List InboundMessage) (m : OutboundMessage)
    → outbound_fits m.status m ≡ true
    → outbound_fits (Accounts.unlink_outbound gone m).status (Accounts.unlink_outbound gone m)
      ≡ true
unlink_outbound-fits gone m h =
    elim (Bool-cases
      (is_some (find_where (λ (i : InboundMessage). option_is m.inbound_message_id i.id) gone))) [
        | inl yes_gone ↦ rw yes_gone (reference-fits m.status m h)
        | inr not_gone ↦ rw not_gone h
      ]
