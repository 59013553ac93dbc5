-- ===== src/Service/Session/Success.antt =====
-- When pairing succeeds.
use kakao_relay.Prelude.{
  ℕ, Str, none, some, List, [], ◌≡◌, refl, ap, ◌∙◌, arith, find_where, to_upper, trim_space, Option,
}
use kakao_relay.Model.{ℤ, Account, Session}
use kakao_relay.World.{Database, World, err, Result, ok, M, next, after, generate_token, hex_encode}
use kakao_relay.Runtime.{Runtime, hash_token}
use kakao_relay.Database.{transaction_call, end_tx, close_tx, run_tx, with_tx}
use kakao_relay.Repository.Query.Cases.{get_context-Answers}
use kakao_relay.Repository.Accounts
use kakao_relay.Repository.Sessions
use kakao_relay.Repository.Sessions.{awaits}
use kakao_relay.Service.Session.{
  success, create_account_for_session, pair_tx, pair_result, pair_session, pair_found,
  verify_pairing_code,
}

-- The random source gives `bytes`, the next id is `id`, the account that they make clashes with no
-- other, and no database call fails.
pub record Ready (rt : Runtime) (bytes : List ℕ) (id : Str) (w : World) : Type 0 where
  pub no_faults : w.db_faults ≡ []
  pub drawn : (next none w.random).0 ≡ some bytes
  pub fresh_id : (next [] w.uuids).0 ≡ id
  pub free :
      find_where (Accounts.clashes id (hash_token rt (hex_encode bytes))) w.db.accounts ≡ none

pair_tx-succeeds :
    (rt : Runtime) (session_id key : Str) (bytes : List ℕ) (id : Str) (w : World)
    → Ready rt bytes id w
    → (a : Account) × ((a.id ≡ id)
        × (((pair_tx rt session_id key w).0 ≡ ok (a, hex_encode bytes))
            × ((pair_tx rt session_id key w).1.db_faults ≡ [])))
unfolding pair_tx create_account_for_session generate_token Accounts.create Accounts.insert_account
    Sessions.mark_paired Sessions.update_metadata Sessions.update_sessions
pair_tx-succeeds rt session_id key bytes id w r = (
  record {
    id = id;
    relay_token_hash = some (hash_token rt (hex_encode bytes));
    rate_limit_per_min = ℤ.pos 60;
    created_at = w.now;
    updated_at = w.now;
  },
  (
    refl,
    (
      ground (arith, r.no_faults, r.drawn, r.fresh_id, r.free),
      ground (arith, r.no_faults, r.drawn, r.fresh_id, r.free),
    ),
  ),
)

begins : (w : World) → w.db_faults ≡ [] → (transaction_call w).0 ≡ ok tt
unfolding transaction_call
begins w none_left = ground (arith, none_left)

begins-Ready :
    (rt : Runtime) (bytes : List ℕ) (id : Str) (w : World)
    → Ready rt bytes id w
    → Ready rt bytes id (transaction_call w).1
unfolding transaction_call
begins-Ready rt bytes id w r = record {
  no_faults = ground (arith, r.no_faults);
  drawn = ground (arith, r.no_faults, r.drawn);
  fresh_id = ground (arith, r.no_faults, r.fresh_id);
  free = ground (arith, r.no_faults, r.free);
}

module _ {A : Type 0} where
  close_tx-succeeds :
      (before : Database) (a : A) (o : Result A × World)
      → o.0 ≡ ok a
      → o.1.db_faults ≡ []
      → (close_tx before o).0 ≡ ok a
  unfolding close_tx end_tx transaction_call
  close_tx-succeeds before a (ok b, w) h none_left = ground (arith, h, none_left)
  close_tx-succeeds before a (err e, w) h none_left = cc

  run_tx-succeeds :
      (fn : M A) (a : A) (o : Result (Unit {0}) × World)
      → o.0 ≡ ok tt
      → (fn o.1).0 ≡ ok a
      → (fn o.1).1.db_faults ≡ []
      → (run_tx fn o).0 ≡ ok a
  unfolding run_tx
  run_tx-succeeds fn a (ok _, w) begun h none_left = close_tx-succeeds w.db a (fn w) h none_left
  run_tx-succeeds fn a (err e, w) begun h none_left = cc

pair_session-succeeds :
    (rt : Runtime) (s : Session) (key : Str) (bytes : List ℕ) (id : Str) (w : World)
    → Ready rt bytes id w
    → (pair_session rt s key w).0 ≡ success s.id id (hex_encode bytes)
unfolding pair_session with_tx
pair_session-succeeds rt s key bytes id w r =
    let (a, (same, (res, none_left))) =
      pair_tx-succeeds rt s.id key bytes id (transaction_call w).1 (begins-Ready rt bytes id w r) in
    ap (pair_result s.id) (
      run_tx-succeeds (pair_tx rt s.id key) (a, hex_encode bytes) (transaction_call w)
        (begins w r.no_faults) res none_left)
    ∙ ap (λ i. success s.id i (hex_encode bytes)) same

pair_found-succeeds :
    (rt : Runtime) (key : Str) (bytes : List ℕ) (id : Str) (o : Option Session) (s : Session)
    (w : World)
    → o ≡ some s
    → Ready rt bytes id w
    → (pair_found rt key (ok o, w)).0 ≡ success s.id id (hex_encode bytes)
unfolding pair_found
pair_found-succeeds rt key bytes id o s w found r =
    ap (λ o. (pair_found rt key (ok o, w)).0) found ∙ pair_session-succeeds rt s key bytes id w r

after-Ready :
    (rt : Runtime) (bytes : List ℕ) (id : Str) (w : World)
    → Ready rt bytes id w
    → Ready rt bytes id (after w)
after-Ready rt bytes id w r = record {
  no_faults = ap (λ fs. (next none fs).1) r.no_faults;
  drawn = r.drawn;
  fresh_id = r.fresh_id;
  free = r.free;
}

-- When a session waits with the code, in upper case and trimmed, and has not expired, no database
-- call fails, the random source gives bytes, and no account has the new id or the new token's hash,
-- the pairing succeeds: with the session, the new account's id and the token made of the bytes.
pub verify-succeeds :
    (rt : Runtime) (code key : Str) (bytes : List ℕ) (id : Str) (s : Session) (w : World)
    → find_where (awaits (to_upper rt.upper_table (trim_space code)) w.now) w.db.sessions ≡ some s
    → Ready rt bytes id w
    → (verify_pairing_code rt code key w).0 ≡ success s.id id (hex_encode bytes)
unfolding verify_pairing_code Sessions.find_by_pairing_code
verify-succeeds rt code key bytes id s w found r =
    ap (λ o. (pair_found rt key o).0)
      (get_context-Answers
        (λ v. find_where (awaits (to_upper rt.upper_table (trim_space code)) v.now) v.db.sessions) w
        (ap (λ fs. (next none fs).0) r.no_faults))
    ∙ pair_found-succeeds rt key bytes id _ s (after w) found (after-Ready rt bytes id w r)
