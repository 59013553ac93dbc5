-- ===== src/Database.antt =====
-- internal/database/db.go: transactions.
use kakao_relay.Prelude.{lit, ◌++◌, Str}
use kakao_relay.World.{Database, World, Result, ok, err, M, db_call}

-- BEGIN, COMMIT and ROLLBACK are calls that may fail.
unfoldable pub transaction_call : M (Unit {0})
unfolding db_call
transaction_call = db_call λ w. (ok tt, w.db)

-- What `WithTx` returns when the function failed with `e` and ROLLBACK ended as given.
abbrev pub rollback_error : Result (Unit {0}) → Str → Str
rollback_error (ok _) e = e
rollback_error (err r) e = lit "rollback failed: " ++ r ++ lit " (original error: " ++ e ++ lit ")"

module _ {A : Type 0} where
  -- After COMMIT: one that reports an error is taken to have left no row; no success goes
  -- unacknowledged.
  unfoldable pub end_tx : Database → A → Result (Unit {0}) × World → Result A × World
  end_tx before a (ok _, w) = (ok a, w)
  end_tx before a (err e, w) = (err (lit "commit transaction: " ++ e), record w { db = before })

  -- After the function: roll back or commit.
  unfoldable pub close_tx : Database → Result A × World → Result A × World
  unfolding end_tx transaction_call
  close_tx before (err e, w) =
      let (r, w') = transaction_call w in (err (rollback_error r e), record w' { db = before })
  close_tx before (ok a, w) = end_tx before a (transaction_call w)

  unfoldable pub run_tx : M A → Result (Unit {0}) × World → Result A × World
  unfolding close_tx
  run_tx fn (err e, w) = (err (lit "begin transaction: " ++ e), w)
  run_tx fn (ok _, w) = close_tx w.db (fn w)

  -- `WithTx`
  unfoldable pub with_tx : M A → M A
  unfolding run_tx
  with_tx fn w = run_tx fn (transaction_call w)
