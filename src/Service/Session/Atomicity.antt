-- ===== src/Service/Session/Atomicity.antt =====
-- `VerifyPairingCode` is all or nothing, and what it has done when it succeeds.
use kakao_relay.Prelude.{Str, Option, none, some, ◌≡◌, refl, subst, arith, to_upper, trim_space}
use kakao_relay.Model.{Account, Session}
use kakao_relay.World.{Database, World, Result, ok, err, M}
use kakao_relay.Runtime.{Runtime}
use kakao_relay.Database.{transaction_call, end_tx, close_tx, run_tx, with_tx}
use kakao_relay.Repository.Sessions
use kakao_relay.Repository.Sessions.{awaits}
use kakao_relay.Service.Session.{
  SessionPairResult, success, invalid_code, internal_error, pair_tx, pair_result, pair_session,
  pair_found, verify_pairing_code,
}

pub db-transaction_call : (w : World) → (transaction_call w).1.db ≡ w.db
unfolding transaction_call
db-transaction_call w = ground arith

module _ {A : Type 0} where
  -- `out` is an error with the rows of `db`, or a value.
  abbrev pub Atomic : Database → Result A × World → Type 0
  Atomic db (err e, w) = w.db ≡ db
  Atomic db (ok a, w) = Unit

  end_tx-Atomic :
      (before : Database) (a : A) (o : Result (Unit {0}) × World)
      → Atomic before (end_tx before a o)
  unfolding end_tx
  end_tx-Atomic before a (ok _, w) = tt
  end_tx-Atomic before a (err e, w) = refl

  close_tx-Atomic : (before : Database) (o : Result A × World) → Atomic before (close_tx before o)
  unfolding close_tx
  close_tx-Atomic before (err e, w) = refl
  close_tx-Atomic before (ok a, w) = end_tx-Atomic before a (transaction_call w)

  run_tx-Atomic : (fn : M A) (o : Result (Unit {0}) × World) → Atomic o.1.db (run_tx fn o)
  unfolding run_tx
  run_tx-Atomic fn (err e, w) = refl
  run_tx-Atomic fn (ok _, w) = close_tx-Atomic w.db (fn w)

  -- A transaction that returns an error leaves the database as it was, whatever the function did
  -- and whichever calls failed.
  with_tx-Atomic : (fn : M A) (w : World) → Atomic w.db (with_tx fn w)
  unfolding with_tx
  with_tx-Atomic fn w =
      subst (λ db. Atomic db (run_tx fn (transaction_call w))) (db-transaction_call w)
        (run_tx-Atomic fn (transaction_call w))

-- The same of pairing: any result but success.
abbrev pub Unchanged : Database → SessionPairResult × World → Type 0
Unchanged db (success s a t, w) = Unit
Unchanged db (invalid_code, w) = w.db ≡ db
Unchanged db (internal_error, w) = w.db ≡ db

module _ (rt : Runtime) (key : Str) where
  pair_result-Unchanged :
      (db : Database) (id : Str) (r : Result (Account × Str)) (w : World)
      → Atomic db (r, w)
      → Unchanged db (pair_result id r, w)
  pair_result-Unchanged db id (ok (a, t)) w h = tt
  pair_result-Unchanged db id (err e) w h = h

  pair_session-Unchanged : (s : Session) (w : World) → Unchanged w.db (pair_session rt s key w)
  unfolding pair_session
  pair_session-Unchanged s w =
      let (r, w') = with_tx (pair_tx rt s.id key) w in
      pair_result-Unchanged w.db s.id r w' (with_tx-Atomic (pair_tx rt s.id key) w)

  pair_found-Unchanged :
      (r : Result (Option Session)) (w : World) → Unchanged w.db (pair_found rt key (r, w))
  unfolding pair_found
  pair_found-Unchanged (err e) w = refl
  pair_found-Unchanged (ok none) w = refl
  pair_found-Unchanged (ok (some s)) w = pair_session-Unchanged s w

  db-find : (code : Str) (w : World) → (Sessions.find_by_pairing_code code w).1.db ≡ w.db
  unfolding Sessions.find_by_pairing_code
  db-find code w = ground arith

  -- Whichever database calls fail, a pairing that does not succeed leaves every row as it was: no
  -- account, no change of a session.
  pub verify-Unchanged :
      (code : Str) (w : World) → Unchanged w.db (verify_pairing_code rt code key w)
  unfolding verify_pairing_code
  verify-Unchanged code w =
      let normalized : Str = to_upper rt.upper_table (trim_space code) in
      let (r, w') = Sessions.find_by_pairing_code normalized w in
      subst (λ db. Unchanged db (pair_found rt key (r, w'))) (db-find normalized w)
        (pair_found-Unchanged r w')
