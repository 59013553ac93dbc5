-- ===== src/Repository/Inbound.antt =====
-- internal/repository/message.go, the inbound half
use kakao_relay.Prelude.{
  ℕ, Str, str_eq, option_is, Bool, false, ◌||◌, ◌&&◌, Option, none, some, List, [], ◌∷◌, ◌++◌, ltb,
  leb, if◌then◌else◌, is_some, find_where, update_where, count_where, order_by, take, drop, select,
  reverse,
}
use kakao_relay.Model.{
  Json, Account, InboundMessage, InboundMessageStatus, queued, delivered, acked, expired, is_queued,
}
use kakao_relay.World.{Database, Result, ok, err, M, draw_uuid, ◌>>=◌}
use kakao_relay.Repository.Query.{
  get_context, select_context, exec_context, insert_context, unique_violation,
  foreign_key_violation,
}

abbrev pub has_id : Str → InboundMessage → Bool
has_id id m = str_eq m.id id

abbrev pub of_account : Str → InboundMessage → Bool
of_account id m = str_eq m.account_id id

abbrev pub of_conversation : Str → InboundMessage → Bool
of_conversation key m = str_eq m.conversation_key key

unfoldable pub find_by_id : Str → M (Option InboundMessage)
unfolding get_context
find_by_id id = get_context λ w. find_where (has_id id) w.db.inbound

-- WHERE account_id = $1 AND status = 'queued' ORDER BY created_at ASC
unfoldable pub queued_of : Str → Database → List InboundMessage
queued_of id db =
    order_by (λ m. m.created_at) (select (λ m. of_account id m && is_queued m.status) db.inbound)

unfoldable pub find_queued_by_account_id : Str → M (List InboundMessage)
unfolding select_context queued_of
find_queued_by_account_id id = select_context λ w. queued_of id w.db

-- ORDER BY created_at DESC LIMIT … OFFSET …
abbrev pub page : ℕ → ℕ → List InboundMessage → List InboundMessage
page limit offset rows = take limit (drop offset (reverse (order_by (λ m. m.created_at) rows)))

unfoldable pub find_by_account_id : Str → ℕ → ℕ → M (List InboundMessage)
unfolding select_context
find_by_account_id id limit offset =
    select_context λ w. page limit offset (select (of_account id) w.db.inbound)

unfoldable pub find_by_conversation_key : Str → ℕ → ℕ → M (List InboundMessage)
unfolding select_context
find_by_conversation_key key limit offset =
    select_context λ w. page limit offset (select (of_conversation key) w.db.inbound)

unfoldable pub count_by_account_id : Str → M ℕ
unfolding select_context
count_by_account_id id = select_context λ w. count_where (of_account id) w.db.inbound

unfoldable pub count_by_conversation_key : Str → M ℕ
unfolding select_context
count_by_conversation_key key = select_context λ w. count_where (of_conversation key) w.db.inbound

unfoldable pub count_by_conversation_key_since : Str → ℕ → M ℕ
unfolding select_context
count_by_conversation_key_since key since =
    select_context
      λ w. count_where (λ m. of_conversation key m && leb since m.created_at) w.db.inbound

-- `model.CreateInboundMessageParams`, which `service.CreateInboundParams` is copied into.
pub record CreateInboundParams : Type 0 where
  pub account_id : Str
  pub conversation_key : Str
  pub kakao_payload : Json
  pub normalized_message : Json
  pub callback_url : Option Str
  pub callback_expires_at : Option ℕ
  pub source_event_id : Option Str

abbrev pub new_message : Str → CreateInboundParams → ℕ → InboundMessage
new_message id p now = record {
  id = id;
  account_id = p.account_id;
  conversation_key = p.conversation_key;
  kakao_payload = p.kakao_payload;
  normalized_message = some p.normalized_message;
  callback_url = p.callback_url;
  callback_expires_at = p.callback_expires_at;
  status = queued;
  source_event_id = p.source_event_id;
  created_at = now;
  delivered_at = none;
  acked_at = none;
}

-- `source_event_id` is unique where it is not NULL.
abbrev pub same_event : Option Str → InboundMessage → Bool
same_event none m = false
same_event (some e) m = option_is m.source_event_id e

-- PRIMARY KEY, the unique source_event_id, and the foreign key to accounts.
unfoldable pub insert_message :
    Str → CreateInboundParams → ℕ → Database → Result InboundMessage × Database
insert_message id p now db =
    if is_some (find_where (λ m. has_id id m || same_event p.source_event_id m) db.inbound)
    then (err unique_violation, db)
    else if is_some (find_where (λ (a : Account). str_eq a.id p.account_id) db.accounts)
    then (
      ok (new_message id p now),
      record db { inbound = db.inbound ++ new_message id p now ∷ [] },
    )
    else (err foreign_key_violation, db)

unfoldable pub create : CreateInboundParams → M InboundMessage
unfolding draw_uuid insert_context insert_message
create p = do id ← draw_uuid; insert_context λ w. insert_message id p w.now w.db

unfoldable pub update_messages :
    (InboundMessage → Bool) → (ℕ → InboundMessage → InboundMessage) → M (Unit {0})
unfolding exec_context
update_messages p f =
    exec_context λ w. (tt, record w.db { inbound = update_where p (f w.now) w.db.inbound })

abbrev pub set_delivered : ℕ → InboundMessage → InboundMessage
set_delivered now m = record m { status = delivered; delivered_at = some now }

unfoldable pub mark_delivered : Str → M (Unit {0})
unfolding update_messages
mark_delivered id = update_messages (has_id id) set_delivered

unfoldable pub mark_acked : Str → M (Unit {0})
unfolding update_messages
mark_acked id =
    update_messages (has_id id) (λ now m. record m { status = acked; acked_at = some now })

-- `callback_expires_at IS NOT NULL AND callback_expires_at < NOW()`
abbrev pub is_past : ℕ → Option ℕ → Bool
is_past now none = false
is_past now (some t) = ltb t now

abbrev pub is_overdue : ℕ → InboundMessage → Bool
is_overdue now m = is_queued m.status && is_past now m.callback_expires_at

abbrev pub set_expired : InboundMessage → InboundMessage
set_expired m = record m { status = expired }

unfoldable pub mark_expired : M ℕ
unfolding exec_context
mark_expired = exec_context λ w. (
  count_where (is_overdue w.now) w.db.inbound,
  record w.db { inbound = update_where (is_overdue w.now) set_expired w.db.inbound },
)

unfoldable pub count_by_status : (InboundMessageStatus → Bool) → M ℕ
unfolding select_context
count_by_status is = select_context λ w. count_where (λ m. is m.status) w.db.inbound

unfoldable pub count_by_account_id_and_status : Str → (InboundMessageStatus → Bool) → M ℕ
unfolding select_context
count_by_account_id_and_status id is =
    select_context λ w. count_where (λ m. of_account id m && is m.status) w.db.inbound

unfoldable pub count_by_account_id_since : Str → ℕ → M ℕ
unfolding select_context
count_by_account_id_since id since =
    select_context λ w. count_where (λ m. of_account id m && leb since m.created_at) w.db.inbound
