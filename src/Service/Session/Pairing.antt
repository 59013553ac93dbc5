-- ===== src/Service/Session/Pairing.antt =====
-- What a successful `VerifyPairingCode` has done.
use kakao_relay.Prelude.{
  ℕ, Str, Bool, ◌&&◌, Option, none, some, [], ◌∷◌, ◌++◌, ◌≡◌, refl, ap, ◌∙◌, subst, arith, inl, inr,
  find_where, update_where, to_upper, trim_space,
}
use kakao_relay.Model.{Account, Session, is_pending_pairing}
use kakao_relay.World.{Database, World, Result, ok, err, M, after, generate_token}
use kakao_relay.Runtime.{Runtime}
use kakao_relay.Database.{transaction_call, end_tx, close_tx, run_tx, with_tx}
use kakao_relay.Repository.Query.Cases.{get_context-Ends}
use kakao_relay.Service.Session.Atomicity.{db-transaction_call}
use kakao_relay.Repository.Accounts
use kakao_relay.Repository.Sessions
use kakao_relay.Repository.Sessions.{awaits, has_id, set_paired, set_metadata}
use kakao_relay.Service.Session.{
  SessionPairResult, success, invalid_code, pair_tx, pair_result, pair_session, pair_found,
  verify_pairing_code, create_account_for_session, relay_metadata,
}

update_sessions-ok :
    (p : Session → Bool) (f : ℕ → Session → Session) (w w' : World)
    → Sessions.update_sessions p f w ≡ (ok tt, w')
    → (w'.db ≡ record w.db { sessions = update_where p (f w.now) w.db.sessions }) × (w'.now ≡ w.now)
unfolding Sessions.update_sessions
update_sessions-ok p f w w' h = ground arith

pub create-ok :
    (rt : Runtime) (w w' : World) (a : Account) (t : Str)
    → create_account_for_session rt w ≡ (ok (a, t), w')
    → (w'.db ≡ record w.db { accounts = w.db.accounts ++ a ∷ [] }) × (w'.now ≡ w.now)
unfolding create_account_for_session Accounts.create generate_token
create-ok rt w w' a t h = ground arith

-- The rows after the three statements of the transaction.
abbrev pub paired_db : Str → Str → ℕ → Account → Str → Database → Database
paired_db id key now a token db = record db {
  accounts = db.accounts ++ a ∷ [];
  sessions = update_where (has_id id) (set_metadata (relay_metadata token) now) (
      update_where (λ s. has_id id s && is_pending_pairing s.status) (set_paired a.id key now)
        db.sessions);
}

pair_tx-ok :
    (rt : Runtime) (id key : Str) (w w' : World) (a : Account) (t : Str)
    → pair_tx rt id key w ≡ (ok (a, t), w')
    → w'.db ≡ paired_db id key w.now a t w.db
unfolding pair_tx Sessions.mark_paired Sessions.update_metadata Sessions.update_sessions
    Accounts.create generate_token create_account_for_session
pair_tx-ok rt id key w w' a t h = ground arith

now-transaction_call : (w : World) → (transaction_call w).1.now ≡ w.now
unfolding transaction_call
now-transaction_call w = ground arith

module _ {A : Type 0} where
  end_tx-ok :
      (before : Database) (a b : A) (o : Result (Unit {0}) × World) (w' : World)
      → end_tx before a o ≡ (ok b, w')
      → (a ≡ b) × (w'.db ≡ o.1.db)
  unfolding end_tx
  end_tx-ok before a b (ok _, w) w' h = ground arith
  end_tx-ok before a b (err e, w) w' h = cc

  close_tx-ok :
      (before : Database) (b : A) (o : Result A × World) (w' : World)
      → close_tx before o ≡ (ok b, w')
      → (o.0 ≡ ok b) × (w'.db ≡ o.1.db)
  unfolding close_tx
  close_tx-ok before b (err e, w) w' h = cc
  close_tx-ok before b (ok a, w) w' h =
      let (same, db) = end_tx-ok before a b (transaction_call w) w' h in
      (ap ok same, db ∙ db-transaction_call w)

  run_tx-ok :
      (fn : M A) (a : A) (o : Result (Unit {0}) × World) (w' : World)
      → run_tx fn o ≡ (ok a, w')
      → ((fn o.1).0 ≡ ok a) × (w'.db ≡ (fn o.1).1.db)
  unfolding run_tx
  run_tx-ok fn a (err e, v) w' h = cc
  run_tx-ok fn a (ok _, v) w' h = close_tx-ok v.db a (fn v) w' h

  -- A transaction that returns a value has the rows that its function made from those before.
  with_tx-ok :
      (fn : M A) (w w' : World) (a : A)
      → with_tx fn w ≡ (ok a, w')
      → (v : World) × (v.db ≡ w.db) × (v.now ≡ w.now) × ((fn v).0 ≡ ok a) × (w'.db ≡ (fn v).1.db)
  unfolding with_tx
  with_tx-ok fn w w' a h =
      let (res, db) = run_tx-ok fn a (transaction_call w) w' h in
      ((transaction_call w).1, db-transaction_call w, now-transaction_call w, res, db)

-- What a successful pairing has found and done: the code's session was waiting and not expired,
-- and the rows are those of before with a new account and the session paired to it.
pub record Paired (rt : Runtime) (code key : Str) (db : Database) (now : ℕ) (db' : Database)
    (id account_id token : Str) : Type 0 where
  pub session : Session
  pub found :
      find_where (awaits (to_upper rt.upper_table (trim_space code)) now) db.sessions ≡ some session
  pub same_id : session.id ≡ id
  pub account : Account
  pub same_account : account.id ≡ account_id
  pub rows : db' ≡ paired_db id key now account token db

pair_result-success :
    (sid : Str) (o : Result (Account × Str) × World) (w' : World) (id account_id token : Str)
    → ◌≡◌ {A = SessionPairResult × World}
        (pair_result sid o.0, o.1)
        (success id account_id token, w')
    → (a : Account) × (sid ≡ id) × (a.id ≡ account_id) × (o ≡ (ok (a, token), w'))
pair_result-success sid (ok (a, t), v) w' id account_id token h =
    (a, ground arith, ground arith, ground arith)
pair_result-success sid (err e, v) w' id account_id token h = cc

invalid-ne-success :
    {w w' : World} {id account_id token : Str}
    → ◌≡◌ {A = SessionPairResult × World} (invalid_code, w) (success id account_id token, w')
    → ⊥
invalid-ne-success h = cc

-- The account of a successful pairing and its rows.
abbrev pub Pairs : Str → World → World → Str → Str → Str → Str → Type 0
Pairs key w w' sid id account_id token =
    (a : Account) × ((sid ≡ id)
      × (a.id ≡ account_id)
      × (w'.db ≡ paired_db id key w.now a token w.db))

pub pair_session-Pairs :
    (rt : Runtime) (key : Str) (s : Session) (w w' : World) (id account_id token : Str)
    → pair_session rt s key w ≡ (success id account_id token, w')
    → Pairs key w w' s.id id account_id token
unfolding pair_session
pair_session-Pairs rt key s w w' id account_id token h =
    let (a, same_id, same_account, run) =
      pair_result-success s.id (with_tx (pair_tx rt s.id key) w) w' id account_id token h in
    let (v, v_db, v_now, res, rows) = with_tx-ok (pair_tx rt s.id key) w w' (a, token) run in
    let made : (pair_tx rt s.id key v).1.db ≡ paired_db s.id key v.now a token v.db =
      pair_tx-ok rt s.id key v (pair_tx rt s.id key v).1 a token
        (ap (λ (r : Result (Account × Str)). (r, (pair_tx rt s.id key v).1)) res) in
    (a, (same_id, same_account, rows ∙ made ∙ cc (v_db, v_now, same_id)))

module _ (rt : Runtime) (code key : Str) where
  session-Paired :
      (s : Session) (w w' : World) (id account_id token : Str)
      → find_where (awaits (to_upper rt.upper_table (trim_space code)) w.now) w.db.sessions ≡ some s
      → pair_session rt s key w ≡ (success id account_id token, w')
      → Paired rt code key w.db w.now w'.db id account_id token
  session-Paired s w w' id account_id token found h =
      let (a, (same_id, same_account, rows)) =
        pair_session-Pairs rt key s w w' id account_id token h in
      record {
        session = s;
        found = found;
        same_id = same_id;
        account = a;
        same_account = same_account;
        rows = rows;
      }

  found-Paired :
      (r : Result (Option Session)) (w w' : World) (id account_id token : Str)
      → r ≡ ok (find_where (awaits (to_upper rt.upper_table (trim_space code)) w.now) w.db.sessions)
      → pair_found rt key (r, w) ≡ (success id account_id token, w')
      → Paired rt code key w.db w.now w'.db id account_id token
  unfolding pair_found
  found-Paired (ok (some s)) w w' id account_id token f h =
      session-Paired s w w' id account_id token (ground (arith, f)) h
  found-Paired (ok none) w w' id account_id token f h = absurd (invalid-ne-success h)
  found-Paired (err e) w w' id account_id token f h = absurd (invalid-ne-success h)

  failed-ne-success :
      (e : Str) (w : World) {w' : World} {id account_id token : Str}
      → pair_found rt key (err e, w) ≡ (success id account_id token, w')
      → ⊥
  unfolding pair_found
  failed-ne-success e w h = invalid-ne-success h

  -- A pairing that reports success found a session with the normalized code that was waiting and
  -- had not expired. It reports that session, and has added one account, with the reported id, and
  -- set that session paired to it with the reported token; all other rows are as before.
  pub verify-Paired :
      (w w' : World) (id account_id token : Str)
      → verify_pairing_code rt code key w ≡ (success id account_id token, w')
      → Paired rt code key w.db w.now w'.db id account_id token
  unfolding verify_pairing_code Sessions.find_by_pairing_code
  verify-Paired w w' id account_id token h =
      let q = λ (v : World).
        find_where (awaits (to_upper rt.upper_table (trim_space code)) v.now) v.db.sessions in
      let Succeeds = λ (o : Result (Option Session) × World).
        pair_found rt key o ≡ (success id account_id token, w') in
      elim (get_context-Ends q w) [
        | inl (e, failed) ↦ absurd (failed-ne-success e (after w) (subst Succeeds failed h))
        | inr found ↦
            found-Paired (ok (q w)) (after w) w' id account_id token refl (subst Succeeds found h)
      ]
