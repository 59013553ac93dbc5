-- ===== src/Repository/Accounts.antt =====
-- internal/repository/account.go
pub mod Deletion
use kakao_relay.Prelude.{
  ℕ, Str, str_eq, option_is, map, reverse, ◌||◌, ◌&&◌, not, Bool, true, Option, none, some, List,
  [], ◌∷◌, ◌++◌, if◌then◌else◌, take, drop, is_some, find_where, update_where, delete_where,
  order_by, length, select,
}
use kakao_relay.Model.{ℤ, Account, ConversationMapping, InboundMessage, OutboundMessage, Session}
use kakao_relay.World.{Database, World, Result, ok, err, M, draw_uuid, ◌>>=◌}
use kakao_relay.Repository.Query.{
  get_context, select_context, exec_context, insert_context, unique_violation,
}

-- `a.id = $1`
abbrev pub has_id : Str → Account → Bool
has_id id a = str_eq a.id id

-- The account that a link names is a row; NULL names none.
abbrev pub linked : Option Str → List Account → Bool
linked none rows = true
linked (some id) rows = is_some (find_where (has_id id) rows)

unfoldable pub find_by_id : Str → M (Option Account)
unfolding get_context
find_by_id id = get_context λ w. find_where (has_id id) w.db.accounts

unfoldable pub find_by_token_hash : Str → M (Option Account)
unfolding get_context
find_by_token_hash hash =
    get_context λ w. find_where (λ a. option_is a.relay_token_hash hash) w.db.accounts

-- ORDER BY created_at DESC is the reverse of the ascending order.
unfoldable pub find_all : ℕ → ℕ → M (List Account)
unfolding select_context
find_all limit offset =
    select_context
      λ w. take limit (drop offset (reverse (order_by (λ a. a.created_at) w.db.accounts)))

-- PRIMARY KEY and the unique index on relay_token_hash.
abbrev pub clashes : Str → Str → Account → Bool
clashes id hash a = str_eq a.id id || option_is a.relay_token_hash hash

unfoldable pub insert_account : Account → Str → World → Result Account × Database
insert_account a hash w =
    if is_some (find_where (clashes a.id hash) w.db.accounts)
    then (err unique_violation, w.db)
    else (ok a, record w.db { accounts = w.db.accounts ++ a ∷ [] })

-- The row of an INSERT.
abbrev pub new_account : Str → Str → ℤ → ℕ → Account
new_account id hash limit now = record {
  id = id;
  relay_token_hash = some hash;
  rate_limit_per_min = limit;
  created_at = now;
  updated_at = now;
}

unfoldable pub create : Str → ℤ → M Account
unfolding draw_uuid insert_context insert_account
create hash limit = do
  id ← draw_uuid
  insert_context λ w. insert_account (new_account id hash limit w.now) hash w

-- The sets of the two UPDATEs; COALESCE keeps the old limit where none is given.
abbrev pub with_limit : Option ℤ → ℕ → Account → Account
with_limit none t a = record a { updated_at = t }
with_limit (some n) t a = record a { rate_limit_per_min = n; updated_at = t }

unfoldable pub update : Str → Option ℤ → M (Option Account)
unfolding exec_context
update id limit = exec_context λ w.
    let rows = update_where (has_id id) (with_limit limit w.now) w.db.accounts in
    (find_where (has_id id) rows, record w.db { accounts = rows })

abbrev pub set_token : Str → ℕ → Account → Account
set_token hash now a = record a { relay_token_hash = some hash; updated_at = now }

-- Another row with the hash, which the unique index refuses to have twice.
abbrev pub taken : Str → Str → Account → Bool
taken id hash a = not (has_id id a) && option_is a.relay_token_hash hash

unfoldable pub update_token_row : Str → Str → ℕ → Database → Result (Option Account) × Database
update_token_row id hash now db =
    if is_some (find_where (has_id id) db.accounts)
      && is_some (find_where (taken id hash) db.accounts)
    then (err unique_violation, db)
    else (
      ok (find_where (has_id id) (update_where (has_id id) (set_token hash now) db.accounts)),
      record db { accounts = update_where (has_id id) (set_token hash now) db.accounts },
    )

unfoldable pub update_token : Str → Str → M (Option Account)
unfolding insert_context update_token_row
update_token id hash = insert_context λ w. update_token_row id hash w.now w.db

-- ON DELETE SET NULL
abbrev pub clear : Str → Option Str → Option Str
clear id o = if option_is o id then none else o

abbrev pub unlink_session : Str → Session → Session
unlink_session id s = record s { account_id = clear id s.account_id }

abbrev pub unlink_conversation : Str → ConversationMapping → ConversationMapping
unlink_conversation id c = record c { account_id = clear id c.account_id }

-- The message's inbound message is one of the rows that the DELETE cascades to.
abbrev pub unlink_outbound : List InboundMessage → OutboundMessage → OutboundMessage
unlink_outbound gone m =
    if is_some (find_where (λ (i : InboundMessage). option_is m.inbound_message_id i.id) gone)
    then record m { inbound_message_id = none }
    else m

-- DELETE FROM accounts, with the foreign keys' actions: the account's messages go, its sessions
-- and conversations lose their link, and so do replies to its messages.
unfoldable pub delete_account : Str → Database → Database
delete_account id db =
    let gone = select (λ (m : InboundMessage). str_eq m.account_id id) db.inbound in
    record {
      accounts = delete_where (has_id id) db.accounts;
      sessions = map (unlink_session id) db.sessions;
      conversations = map (unlink_conversation id) db.conversations;
      inbound = delete_where (λ (m : InboundMessage). str_eq m.account_id id) db.inbound;
      outbound =
          map (unlink_outbound gone)
            (delete_where (λ (m : OutboundMessage). str_eq m.account_id id) db.outbound);
    }

unfoldable pub delete : Str → M (Unit {0})
unfolding exec_context delete_account
delete id = exec_context λ w. (tt, delete_account id w.db)

unfoldable pub count : M ℕ
unfolding select_context
count = select_context λ w. length w.db.accounts
