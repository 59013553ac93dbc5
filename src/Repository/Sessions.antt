-- ===== src/Repository/Sessions.antt =====
-- internal/repository/session.go
use kakao_relay.Prelude.{
  ℕ, ◌*◌, Str, str_eq, Bool, ◌||◌, ◌&&◌, Option, none, some, List, [], ◌∷◌, ◌++◌, ltb,
  if◌then◌else◌, is_some, find_where, update_where, delete_where, count_where, order_by, take,
  reverse,
}
use kakao_relay.Model.{
  Json, Session, SessionStatus, pending_pairing, paired, expired, disconnected, second,
  is_pending_pairing, is_paired_session, is_closed_session,
}
use kakao_relay.World.{Database, Result, ok, err, M, pure, draw_uuid, ◌>>=◌}
use kakao_relay.Repository.Query.{
  get_context, select_context, exec_context, insert_context, unique_violation,
}

-- '9999-12-31 23:59:59+00'
abbrev pub far_future : ℕ
far_future = 253402300799 * second

abbrev pub has_id : Str → Session → Bool
has_id id s = str_eq s.id id

unfoldable pub find_by_id : Str → M (Option Session)
unfolding get_context
find_by_id id = get_context λ w. find_where (has_id id) w.db.sessions

-- WHERE session_token_hash = $1 AND status IN ('pending_pairing', 'paired')
abbrev pub is_live : Str → Session → Bool
is_live hash s =
    str_eq s.session_token_hash hash && (is_pending_pairing s.status || is_paired_session s.status)

unfoldable pub find_by_token_hash : Str → M (Option Session)
unfolding get_context
find_by_token_hash hash = get_context λ w. find_where (is_live hash) w.db.sessions

-- WHERE pairing_code = $1 AND status = 'pending_pairing' AND expires_at > NOW()
abbrev pub awaits : Str → ℕ → Session → Bool
awaits code now s =
    str_eq s.pairing_code code && is_pending_pairing s.status && ltb now s.expires_at

unfoldable pub find_by_pairing_code : Str → M (Option Session)
unfolding get_context
find_by_pairing_code code = get_context λ w. find_where (awaits code w.now) w.db.sessions

-- PRIMARY KEY and the unique columns session_token_hash and pairing_code.
abbrev pub clashes : Session → Session → Bool
clashes new s =
    str_eq s.id new.id
    || str_eq s.session_token_hash new.session_token_hash
    || str_eq s.pairing_code new.pairing_code

unfoldable pub insert_session : Session → Database → Result Session × Database
insert_session s db =
    if is_some (find_where (clashes s) db.sessions)
    then (err unique_violation, db)
    else (ok s, record db { sessions = db.sessions ++ s ∷ [] })

-- The row of an INSERT, with the defaults of the other columns.
abbrev pub new_session : Str → Str → Str → ℕ → Option Json → ℕ → Session
new_session id hash code expires_at metadata now = record {
  id = id;
  session_token_hash = hash;
  pairing_code = code;
  status = pending_pairing;
  account_id = none;
  paired_conversation_key = none;
  metadata = metadata;
  expires_at = expires_at;
  paired_at = none;
  created_at = now;
  updated_at = now;
}

unfoldable pub create : Str → Str → ℕ → Option Json → M Session
unfolding draw_uuid insert_context insert_session
create hash code expires_at metadata = do
  id ← draw_uuid
  insert_context λ w. insert_session (new_session id hash code expires_at metadata w.now) w.db

-- UPDATE sessions SET … WHERE …
unfoldable pub update_sessions : (Session → Bool) → (ℕ → Session → Session) → M (Unit {0})
unfolding exec_context
update_sessions p f =
    exec_context λ w. (tt, record w.db { sessions = update_where p (f w.now) w.db.sessions })

abbrev pub set_paired : Str → Str → ℕ → Session → Session
set_paired account_id key now s = record s {
  status = paired;
  account_id = some account_id;
  paired_conversation_key = some key;
  paired_at = some now;
  expires_at = far_future;
  updated_at = now;
}

unfoldable pub mark_paired : Str → Str → Str → M (Unit {0})
unfolding update_sessions
mark_paired id account_id key =
    update_sessions (λ s. has_id id s && is_pending_pairing s.status) (set_paired account_id key)

abbrev pub set_status : SessionStatus → ℕ → Session → Session
set_status st now s = record s { status = st; updated_at = now }

unfoldable pub mark_expired : Str → M (Unit {0})
unfolding update_sessions
mark_expired id = update_sessions (has_id id) (set_status expired)

unfoldable pub mark_disconnected : Str → M (Unit {0})
unfolding update_sessions
mark_disconnected id = update_sessions (has_id id) (set_status disconnected)

-- WHERE (status = 'pending_pairing' AND expires_at < NOW()) OR status IN ('expired', 'disconnected')
abbrev pub is_stale : ℕ → Session → Bool
is_stale now s = (is_pending_pairing s.status && ltb s.expires_at now) || is_closed_session s.status

unfoldable pub delete_expired : M ℕ
unfolding exec_context
delete_expired = exec_context λ w. (
  count_where (is_stale w.now) w.db.sessions,
  record w.db { sessions = delete_where (is_stale w.now) w.db.sessions },
)

-- The code returns 0 whatever it is asked.
unfoldable pub count_pending_by_ip : Str → ℕ → M ℕ
count_pending_by_ip ip since = pure 0

unfoldable pub find_recent : ℕ → M (List Session)
unfolding select_context
find_recent limit =
    select_context λ w. take limit (reverse (order_by (λ s. s.created_at) w.db.sessions))

unfoldable pub count_by_status : (SessionStatus → Bool) → M ℕ
unfolding select_context
count_by_status is = select_context λ w. count_where (λ s. is s.status) w.db.sessions

abbrev pub set_metadata : Json → ℕ → Session → Session
set_metadata metadata now s = record s { metadata = some metadata; updated_at = now }

unfoldable pub update_metadata : Str → Json → M (Unit {0})
unfolding update_sessions
update_metadata id metadata = update_sessions (has_id id) (set_metadata metadata)

unfoldable pub delete : Str → M (Unit {0})
unfolding exec_context
delete id =
    exec_context λ w. (tt, record w.db { sessions = delete_where (has_id id) w.db.sessions })
