-- ===== src/Repository/Outbound.antt =====
-- internal/repository/message.go, the outbound half
use kakao_relay.Prelude.{
  ℕ, Str, lit, str_eq, Bool, false, true, ◌&&◌, Option, none, some, List, [], ◌∷◌, ◌++◌, leb,
  if◌then◌else◌, is_some, find_where, update_where, count_where, order_by, take, drop, select,
  reverse,
}
use kakao_relay.Model.{
  Json, Account, InboundMessage, OutboundMessage, OutboundMessageStatus, sent, failed, is_failed,
}
use kakao_relay.World.{Database, Result, ok, err, M, draw_uuid, ◌>>=◌}
use kakao_relay.Repository.Query.{
  get_context, select_context, exec_context, insert_context, unique_violation,
  foreign_key_violation,
}

abbrev pub has_id : Str → OutboundMessage → Bool
has_id id m = str_eq m.id id

abbrev pub of_account : Str → OutboundMessage → Bool
of_account id m = str_eq m.account_id id

abbrev pub of_conversation : Str → OutboundMessage → Bool
of_conversation key m = str_eq m.conversation_key key

abbrev pub is_pending : OutboundMessageStatus → Bool
is_pending OutboundMessageStatus.pending = true
is_pending _ = false

unfoldable pub find_by_id : Str → M (Option OutboundMessage)
unfolding get_context
find_by_id id = get_context λ w. find_where (has_id id) w.db.outbound

unfoldable pub find_pending_by_account_id : Str → M (List OutboundMessage)
unfolding select_context
find_pending_by_account_id id = select_context λ w.
    order_by (λ m. m.created_at)
      (select (λ m. of_account id m && is_pending m.status) w.db.outbound)

abbrev pub newest_first : List OutboundMessage → List OutboundMessage
newest_first rows = reverse (order_by (λ m. m.created_at) rows)

unfoldable pub find_by_account_id : Str → ℕ → ℕ → M (List OutboundMessage)
unfolding select_context
find_by_account_id id limit offset =
    select_context
      λ w. take limit (drop offset (newest_first (select (of_account id) w.db.outbound)))

unfoldable pub find_by_conversation_key : Str → ℕ → ℕ → M (List OutboundMessage)
unfolding select_context
find_by_conversation_key key limit offset =
    select_context
      λ w. take limit (drop offset (newest_first (select (of_conversation key) w.db.outbound)))

unfoldable pub count_by_account_id : Str → M ℕ
unfolding select_context
count_by_account_id id = select_context λ w. count_where (of_account id) w.db.outbound

unfoldable pub count_by_conversation_key : Str → M ℕ
unfolding select_context
count_by_conversation_key key = select_context λ w. count_where (of_conversation key) w.db.outbound

unfoldable pub count_by_conversation_key_since : Str → ℕ → M ℕ
unfolding select_context
count_by_conversation_key_since key since =
    select_context
      λ w. count_where (λ m. of_conversation key m && leb since m.created_at) w.db.outbound

unfoldable pub count_by_conversation_key_and_status : Str → (OutboundMessageStatus → Bool) → M ℕ
unfolding select_context
count_by_conversation_key_and_status key is =
    select_context λ w. count_where (λ m. of_conversation key m && is m.status) w.db.outbound

-- `model.CreateOutboundMessageParams`
pub record CreateOutboundParams : Type 0 where
  pub account_id : Str
  pub inbound_message_id : Option Str
  pub conversation_key : Str
  pub kakao_target : Json
  pub response_payload : Option Json

abbrev pub new_message : Str → CreateOutboundParams → Json → ℕ → OutboundMessage
new_message id p payload now = record {
  id = id;
  account_id = p.account_id;
  inbound_message_id = p.inbound_message_id;
  conversation_key = p.conversation_key;
  kakao_target = p.kakao_target;
  response_payload = payload;
  status = OutboundMessageStatus.pending;
  error_message = none;
  created_at = now;
  sent_at = none;
}

-- The foreign key to inbound_messages, which NULL satisfies.
abbrev pub inbound_exists : Option Str → List InboundMessage → Bool
inbound_exists none rows = true
inbound_exists (some id) rows = is_some (find_where (λ (m : InboundMessage). str_eq m.id id) rows)

-- An absent `json.RawMessage` is no jsonb value, and the column is NOT NULL.
abbrev pub not_json : Str
not_json = lit "invalid input syntax for type json"

-- PRIMARY KEY and the two foreign keys.
unfoldable pub insert_payload :
    Str → CreateOutboundParams → ℕ → Database → Option Json → Result OutboundMessage × Database
insert_payload id p now db none = (err not_json, db)
insert_payload id p now db (some payload) =
    if is_some (find_where (has_id id) db.outbound)
    then (err unique_violation, db)
    else if is_some (find_where (λ (a : Account). str_eq a.id p.account_id) db.accounts)
        && inbound_exists p.inbound_message_id db.inbound
    then (
      ok (new_message id p payload now),
      record db { outbound = db.outbound ++ new_message id p payload now ∷ [] },
    )
    else (err foreign_key_violation, db)

unfoldable pub insert_message :
    Str → CreateOutboundParams → ℕ → Database → Result OutboundMessage × Database
unfolding insert_payload
insert_message id p now db = insert_payload id p now db p.response_payload

unfoldable pub create : CreateOutboundParams → M OutboundMessage
unfolding draw_uuid insert_context insert_message
create p = do id ← draw_uuid; insert_context λ w. insert_message id p w.now w.db

unfoldable pub update_messages :
    (OutboundMessage → Bool) → (ℕ → OutboundMessage → OutboundMessage) → M (Unit {0})
unfolding exec_context
update_messages p f =
    exec_context λ w. (tt, record w.db { outbound = update_where p (f w.now) w.db.outbound })

abbrev pub set_sent : ℕ → OutboundMessage → OutboundMessage
set_sent now m = record m { status = sent; sent_at = some now }

unfoldable pub mark_sent : Str → M (Unit {0})
unfolding update_messages
mark_sent id = update_messages (has_id id) set_sent

abbrev pub set_failed : Str → OutboundMessage → OutboundMessage
set_failed e m = record m { status = failed; error_message = some e }

unfoldable pub mark_failed : Str → Str → M (Unit {0})
unfolding update_messages
mark_failed id e = update_messages (has_id id) (λ now. set_failed e)

unfoldable pub count_by_account_id_and_status : Str → (OutboundMessageStatus → Bool) → M ℕ
unfolding select_context
count_by_account_id_and_status id is =
    select_context λ w. count_where (λ m. of_account id m && is m.status) w.db.outbound

unfoldable pub count_by_account_id_since : Str → ℕ → M ℕ
unfolding select_context
count_by_account_id_since id since =
    select_context λ w. count_where (λ m. of_account id m && leb since m.created_at) w.db.outbound

unfoldable pub find_recent_failed_by_account_id : Str → ℕ → M (List OutboundMessage)
unfolding select_context
find_recent_failed_by_account_id id limit = select_context λ w.
    take limit (newest_first (select (λ m. of_account id m && is_failed m.status) w.db.outbound))
