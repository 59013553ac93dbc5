-- ===== src/Repository/WellFormed/Kept.antt =====
-- Every statement of internal/repository keeps the tables well-formed.
use kakao_relay.Prelude.{refl}
use kakao_relay.Repository.Conversations
use kakao_relay.Repository.Inbound
use kakao_relay.Repository.Outbound
use kakao_relay.Repository.Sessions
use kakao_relay.Repository.Statements.{KeptBy}
use kakao_relay.Repository.WellFormed.{WellFormed}
use kakao_relay.Repository.WellFormed.Deletions.{delete_account-WellFormed}
use kakao_relay.Repository.WellFormed.Owners.{
  insert_account-WellFormed, update_token-WellFormed, insert_session-WellFormed,
  update_sessions-WellFormed, delete_sessions-WellFormed,
}
use kakao_relay.Repository.WellFormed.Messages.{
  insert_inbound-WellFormed, update_inbound-WellFormed, insert_outbound-WellFormed,
  update_outbound-WellFormed,
}
use kakao_relay.Repository.WellFormed.Chats.{
  upsert_row-WellFormed, update_conversations-WellFormed, delete_conversations-WellFormed,
}

-- The constraints hold after each statement, whatever it is given, if they hold before it; the two
-- that set an account's link get one that is a row.
pub WellFormed-KeptBy : KeptBy WellFormed
unfolding Outbound.insert_message
WellFormed-KeptBy = record {
  insert_account = insert_account-WellFormed;
  update_token = update_token-WellFormed;
  delete_account = delete_account-WellFormed;
  insert_session = insert_session-WellFormed;
  set_paired = λ p account_id key now db linked wf.
      update_sessions-WellFormed p (Sessions.set_paired account_id key now) db
        (λ s. (refl, refl, refl)) (λ s h. linked) wf;
  set_status = λ p st now db closed wf.
      update_sessions-WellFormed p (Sessions.set_status st now) db (λ s. (refl, refl, refl))
        (λ s h. h) wf;
  set_metadata = λ p metadata now db wf.
      update_sessions-WellFormed p (Sessions.set_metadata metadata now) db (λ s. (refl, refl, refl))
        (λ s h. h) wf;
  delete_sessions = delete_sessions-WellFormed;
  upsert_row = upsert_row-WellFormed;
  set_state = λ p st account_id now db linked fits wf.
      update_conversations-WellFormed p (Conversations.set_state st account_id now) db
        (λ c. (refl, refl, refl, refl)) (λ c h. linked) wf;
  delete_conversations = delete_conversations-WellFormed;
  insert_inbound = insert_inbound-WellFormed;
  set_delivered = λ id now db wf.
      update_inbound-WellFormed (Inbound.has_id id) (Inbound.set_delivered now) db
        (λ m. (refl, refl, refl)) wf;
  set_expired = λ now db wf.
      update_inbound-WellFormed (Inbound.is_overdue now) Inbound.set_expired db
        (λ m. (refl, refl, refl)) wf;
  insert_outbound = λ id p now db wf. insert_outbound-WellFormed id p now db p.response_payload wf;
  set_sent = λ id now db wf.
      update_outbound-WellFormed (Outbound.has_id id) (Outbound.set_sent now) db
        (λ m. (refl, refl, refl)) wf;
  set_failed = λ id e db wf.
      update_outbound-WellFormed (Outbound.has_id id) (Outbound.set_failed e) db
        (λ m. (refl, refl, refl)) wf;
}
