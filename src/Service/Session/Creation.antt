-- ===== src/Service/Session/Creation.antt =====
-- internal/service/session.go: what `CreateSession` leaves for the client and for the chat.
use kakao_relay.Prelude.{
  ℕ, ◌+◌, ◌*◌, ◌<◌, Str, str_eq_refl, Bool, true, false, ◌≡◌, refl, sym, subst, none, some, List,
  [], ◌∷◌, ◌++◌, All, is_some, find_where, arith, to_upper, trim_space,
}
use kakao_relay.Prelude.Keys.{find_where-none}
use kakao_relay.Model.{Session, pending_pairing, minute}
use kakao_relay.World.{Database, World, ok, next, draw_uuid, generate_token}
use kakao_relay.Runtime.{Runtime, hash_token}
use kakao_relay.Repository.Query.{insert_context}
use kakao_relay.Repository.Sessions
use kakao_relay.Repository.Query.Cases.{Answers}
use kakao_relay.Service.Session.Polling.{get_status-paired, paired_answer}
use kakao_relay.Service.Session.{
  CreateSessionResult, create_session, generate_session_pairing_code, session_pairing_expiry_mins,
  success, verify_pairing_code, get_status,
}

-- The row that a creation adds.
abbrev pub created_row : Runtime → Str → CreateSessionResult → ℕ → Session
created_row rt id r now =
    Sessions.new_session id (hash_token rt r.session_token) r.pairing_code r.expires_at none now

create-ok :
    (rt : Runtime) (w w' : World) (r : CreateSessionResult)
    → create_session rt w ≡ (ok r, w')
    → (id : Str) × (w'.db
        ≡ record w.db { sessions = w.db.sessions ++ created_row rt id r w.now ∷ [] })
      × (is_some (find_where (Sessions.clashes (created_row rt id r w.now)) w.db.sessions) ≡ false)
      × (r.expires_at ≡ w.now + session_pairing_expiry_mins * minute)
unfolding create_session Sessions.create draw_uuid insert_context Sessions.insert_session
    generate_token generate_session_pairing_code
create-ok rt w w' r h =
    ((next [] w.uuids).0, ground (arith, h), ground (arith, h), ground (arith, h))

-- The last row is found where no earlier one passes the test.
find_where-last :
    {A : Type 0} (p : A → Bool) (xs : List A) (x : A)
    → All (λ y. p y ≡ false) xs
    → p x ≡ true
    → find_where p (xs ++ x ∷ []) ≡ some x
unfolding find_where
find_where-last p [] x h here = rw here refl
find_where-last p (y ∷ ys) x (n, h) here = rw (n, find_where-last p ys x h here) refl

-- The new session is what the client's token and the chat's code lead to.
pub record Created (rt : Runtime) (r : CreateSessionResult) (now : ℕ) (db db' : Database)
    : Type 0 where
  pub session : Session
  pub rows : db' ≡ record db { sessions = db.sessions ++ session ∷ [] }
  pub waits : session.status ≡ pending_pairing
  pub unlinked : session.account_id ≡ none
  pub until : session.expires_at ≡ now + 5 * minute
  pub reported : r.expires_at ≡ session.expires_at
  pub by_token :
      find_where (Sessions.is_live (hash_token rt r.session_token)) db'.sessions ≡ some session
  pub by_code :
      (t : ℕ)
      → t < now + 5 * minute
      → find_where (Sessions.awaits r.pairing_code t) db'.sessions ≡ some session

-- A creation that succeeds adds one session, which waits for five minutes and names no account.
-- Its token's hash and its code were on no earlier session: the token leads the middleware and the
-- poll to it, and until it expires the code leads the pairing to it.
pub create_session-Created :
    (rt : Runtime) (w w' : World) (r : CreateSessionResult)
    → create_session rt w ≡ (ok r, w')
    → Created rt r w.now w.db w'.db
create_session-Created rt w w' r h =
    let (id, rows, free, expiry) = create-ok rt w w' r h in
    let new = created_row rt id r w.now in
    record {
      session = new;
      rows = rows;
      waits = refl;
      unlinked = refl;
      until = expiry;
      reported = refl;
      by_token =
          subst
            (λ (d : Database).
              find_where (Sessions.is_live new.session_token_hash) d.sessions ≡ some new)
            (sym rows)
            (find_where-last (Sessions.is_live new.session_token_hash) w.db.sessions new
              (find_where-none (Sessions.clashes new) _ w.db.sessions (λ s n. ground (arith, n))
                free)
              (ground (arith, str_eq_refl new.session_token_hash)));
      by_code = λ t early.
          subst
            (λ (d : Database).
              find_where (Sessions.awaits new.pairing_code t) d.sessions ≡ some new)
            (sym rows)
            (find_where-last (Sessions.awaits new.pairing_code t) w.db.sessions new
              (find_where-none (Sessions.clashes new) _ w.db.sessions (λ s n. ground (arith, n))
                free)
              (ground (arith, str_eq_refl new.pairing_code, expiry, early)));
    }

-- The whole handshake: where a creation has succeeded, a pairing with any text that normalizes to
-- its code, before the five minutes are over, has found this session; if it reports success, then
-- the next poll with the session's token that the database answers reports the pairing, with its
-- account and relay token, provided that no other request comes between.
pub get_status-handshake :
    (rt : Runtime) (w w' v v' u : World) (r : CreateSessionResult)
    (code key id account_id token : Str)
    → create_session rt w ≡ (ok r, w')
    → to_upper rt.upper_table (trim_space code) ≡ r.pairing_code
    → v.db ≡ w'.db
    → v.now < w.now + 5 * minute
    → verify_pairing_code rt code key v ≡ (success id account_id token, v')
    → u.db ≡ v'.db
    → Answers u
    → (get_status (hash_token rt r.session_token) u).0
      ≡ ok (some (paired_answer key v.now account_id token))
get_status-handshake rt w w' v v' u r code key id account_id token made same v_rows early done
      u_rows answers =
    let c = create_session-Created rt w w' r made in
    get_status-paired rt code key v v' u id account_id token (hash_token rt r.session_token)
      c.session done
      (subst (λ d. find_where (Sessions.awaits d v.now) v.db.sessions ≡ some c.session) (sym same)
        (subst
          (λ (d : Database).
            find_where (Sessions.awaits r.pairing_code v.now) d.sessions ≡ some c.session)
          (sym v_rows) (c.by_code v.now early)))
      (subst
        (λ (d : Database).
          find_where (Sessions.is_live (hash_token rt r.session_token)) d.sessions ≡ some c.session)
        (sym v_rows) c.by_token)
      u_rows answers
