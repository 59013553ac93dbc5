-- ===== src/Repository/Conversations.antt =====
-- internal/repository/conversation.go
pub mod Upserts
use kakao_relay.Prelude.{
  ℕ, Str, str_eq, option_is, Bool, not, ◌||◌, ◌&&◌, Option, none, some, List, [], ◌∷◌, ◌++◌,
  if◌then◌else◌, is_some, find_where, update_where, delete_where, count_where, order_by, select,
  reverse,
}
use kakao_relay.Model.{ConversationMapping, PairingState, unpaired, is_paired}
use kakao_relay.World.{Database, Result, ok, err, M, draw_uuid, ◌>>=◌}
use kakao_relay.Repository.Accounts.{linked}
use kakao_relay.Repository.Query.{
  get_context, select_context, exec_context, insert_context, unique_violation,
  foreign_key_violation,
}

abbrev pub has_key : Str → ConversationMapping → Bool
has_key key c = str_eq c.conversation_key key

unfoldable pub find_by_key : Str → M (Option ConversationMapping)
unfolding get_context
find_by_key key = get_context λ w. find_where (has_key key) w.db.conversations

unfoldable pub find_by_account_id : Str → M (List ConversationMapping)
unfolding select_context
find_by_account_id id = select_context λ w.
    reverse
      (order_by (λ c. c.last_seen_at) (select (λ c. option_is c.account_id id) w.db.conversations))

-- A `paired_at` of NULL sorts first in descending order; `pairing_time` puts it last in ascending.
abbrev pub pairing_time : Option ℕ → ℕ × Bool
pairing_time none = (0, Bool.true)
pairing_time (some t) = (t, Bool.false)

unfoldable pub find_paired_by_account_id : Str → M (List ConversationMapping)
unfolding select_context
find_paired_by_account_id id = select_context λ w.
    let rows = select (λ c. option_is c.account_id id && is_paired c.state) w.db.conversations in
    select (λ c. (pairing_time c.paired_at).1) rows
    ++ reverse
        (order_by (λ c. (pairing_time c.paired_at).0) (select (λ c. is_some c.paired_at) rows))

-- `model.UpsertConversationParams`
pub record UpsertConversationParams : Type 0 where
  pub conversation_key : Str
  pub kakao_channel_id : Str
  pub plusfriend_user_key : Str
  pub callback_url : Option Str
  pub callback_expires_at : Option ℕ

abbrev pub new_conversation : Str → UpsertConversationParams → ℕ → ConversationMapping
new_conversation id p now = record {
  id = id;
  conversation_key = p.conversation_key;
  kakao_channel_id = p.kakao_channel_id;
  plusfriend_user_key = p.plusfriend_user_key;
  account_id = none;
  state = unpaired;
  last_callback_url = p.callback_url;
  last_callback_expires_at = p.callback_expires_at;
  first_seen_at = now;
  last_seen_at = now;
  paired_at = none;
}

-- DO UPDATE SET
abbrev pub refresh : UpsertConversationParams → ℕ → ConversationMapping → ConversationMapping
refresh p now c = record c {
  last_callback_url = p.callback_url;
  last_callback_expires_at = p.callback_expires_at;
  last_seen_at = now;
}

-- PRIMARY KEY and the unique index on (kakao_channel_id, plusfriend_user_key); the unique
-- conversation_key is the arbiter of ON CONFLICT.
abbrev pub clashes : Str → UpsertConversationParams → ConversationMapping → Bool
clashes id p c =
    str_eq c.id id
    || (str_eq c.kakao_channel_id p.kakao_channel_id
        && str_eq c.plusfriend_user_key p.plusfriend_user_key)

unfoldable pub upsert_row :
    Str → UpsertConversationParams → ℕ → Database → Result ConversationMapping × Database
upsert_row id p now db = elim (find_where (has_key p.conversation_key) db.conversations) [
  | some c ↦ (
    ok (refresh p now c),
    record db {
      conversations = update_where (has_key p.conversation_key) (refresh p now) db.conversations;
    },
  )
  | none ↦
      if is_some (find_where (clashes id p) db.conversations) then (err unique_violation, db) else (
        ok (new_conversation id p now),
        record db { conversations = db.conversations ++ new_conversation id p now ∷ [] },
      )
]

unfoldable pub upsert : UpsertConversationParams → M ConversationMapping
unfolding draw_uuid insert_context upsert_row
upsert p = do id ← draw_uuid; insert_context λ w. upsert_row id p w.now w.db

-- `paired_at = COALESCE($4, paired_at)`, where $4 is the time only for the state 'paired'.
abbrev pub coalesce : Bool → ℕ → Option ℕ → Option ℕ
coalesce set now old = if set then some now else old

abbrev pub set_state : PairingState → Option Str → ℕ → ConversationMapping → ConversationMapping
set_state st account_id now c = record c {
  state = st;
  account_id = account_id;
  paired_at = coalesce (is_paired st) now c.paired_at;
}

-- The foreign key to accounts refuses an account that is no row.
unfoldable pub update_state_row :
    Str → PairingState → Option Str → ℕ → Database → Result (Unit {0}) × Database
update_state_row key st account_id now db =
    if is_some (find_where (has_key key) db.conversations) && not (linked account_id db.accounts)
    then (err foreign_key_violation, db)
    else (
      ok tt,
      record db {
        conversations = update_where (has_key key) (set_state st account_id now) db.conversations;
      },
    )

unfoldable pub update_state : Str → PairingState → Option Str → M (Unit {0})
unfolding insert_context update_state_row
update_state key st account_id = insert_context λ w. update_state_row key st account_id w.now w.db

unfoldable pub update_callback : Str → Str → ℕ → M (Unit {0})
unfolding exec_context
update_callback key url expires_at = exec_context λ w. (
  tt,
  record w.db {
    conversations =
        update_where (has_key key)
          (λ c. record c {
            last_callback_url = some url;
            last_callback_expires_at = some expires_at;
            last_seen_at = w.now;
          })
          w.db.conversations;
  },
)

unfoldable pub delete : Str → M (Unit {0})
unfolding exec_context
delete id = exec_context λ w. (
  tt,
  record w.db {
    conversations = delete_where (λ (c : ConversationMapping). str_eq c.id id) w.db.conversations;
  },
)

unfoldable pub count_by_state : (PairingState → Bool) → M ℕ
unfolding select_context
count_by_state is = select_context λ w. count_where (λ c. is c.state) w.db.conversations
