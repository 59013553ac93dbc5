-- ===== src/Repository/Statements/Calls.antt =====
-- What every call of a handler keeps, for a predicate that the statements keep.
use kakao_relay.Prelude.{Str, ◌≡◌, refl, Option, ◌⊎◌, inl, inr, subst, sym, arith}
use kakao_relay.World.{
  Database, World, Result, ok, err, M, pure, wrapped, continue, ◌>>=◌, db_call, after, draw_uuid,
  generate_token,
}
use kakao_relay.Database.{transaction_call, end_tx, close_tx, run_tx, with_tx}
use kakao_relay.Service.Session.Atomicity.{db-transaction_call}
use kakao_relay.Repository.Query.{get_context, select_context, exec_context, insert_context}
use kakao_relay.Repository.Query.Cases.{db_call-Ends, get_context-Ends}

db-generate_token : (w : World) → (generate_token w).1.db ≡ w.db
unfolding generate_token
db-generate_token w = ground arith

module _ (P : Database → Type 0) where
  -- `m` keeps the predicate, whatever it returns and whichever calls fail.
  pub record Keeps {A : Type 0} (m : M A) : Type 0 where
    pub keeps : (w : World) → P w.db → P (m w).1.db

  module _ {A : Type 0} where
    -- What a call ends with is one of two results that have the predicate.
    either_end :
        (out result : Result A × World) (w : World)
        → ((e : Str) × (out ≡ (err e, after w))) ⊎ (out ≡ result)
        → P w.db
        → P result.1.db
        → P out.1.db
    either_end out result w (inl (e, failed)) p q =
        subst (λ (o : Result A × World). P o.1.db) (sym failed) p
    either_end out result w (inr done) p q = subst (λ (o : Result A × World). P o.1.db) (sym done) q

    pub Keeps-db_call :
        (run : World → Result A × Database)
        → ((w : World) → P w.db → P (run w).1)
        → Keeps (db_call run)
    Keeps-db_call run h = record {
      keeps = λ w p. either_end _ _ w (db_call-Ends run w) p (h (after w) p);
    }

    pub Keeps-select_context : (q : World → A) → Keeps (select_context q)
    unfolding select_context
    Keeps-select_context q = Keeps-db_call _ (λ w p. p)

    pub Keeps-exec_context :
        (q : World → A × Database) → ((w : World) → P w.db → P (q w).1) → Keeps (exec_context q)
    unfolding exec_context
    Keeps-exec_context q h = Keeps-db_call _ h

    pub Keeps-exec_at :
        (q : World → A × Database) (w : World)
        → P w.db
        → P (q (after w)).1
        → P (exec_context q w).1.db
    unfolding exec_context
    Keeps-exec_at q w p h = either_end _ _ w (db_call-Ends _ w) p h

    pub Keeps-insert_at :
        (run : World → Result A × Database) (w : World)
        → P w.db
        → P (run (after w)).1
        → P (insert_context run w).1.db
    unfolding insert_context
    Keeps-insert_at run w p h = either_end _ _ w (db_call-Ends run w) p h

    pub Keeps-insert_context :
        (run : World → Result A × Database)
        → ((w : World) → P w.db → P (run w).1)
        → Keeps (insert_context run)
    unfolding insert_context
    Keeps-insert_context run h = Keeps-db_call run h

    end_tx-Keeps :
        (before : Database) (a : A) (o : Result (Unit {0}) × World)
        → P before
        → P o.1.db
        → P (end_tx before a o).1.db
    unfolding end_tx
    end_tx-Keeps before a (ok _, w) p q = q
    end_tx-Keeps before a (err e, w) p q = p

    close_tx-Keeps :
        (before : Database) (o : Result A × World)
        → P before
        → P o.1.db
        → P (close_tx before o).1.db
    unfolding close_tx
    close_tx-Keeps before (err e, w) p q = p
    close_tx-Keeps before (ok a, w) p q =
        end_tx-Keeps before a (transaction_call w) p (subst P (sym (db-transaction_call w)) q)

    run_tx-Keeps :
        (fn : M A) → Keeps fn → (o : Result (Unit {0}) × World) → P o.1.db → P (run_tx fn o).1.db
    unfolding run_tx
    run_tx-Keeps fn h (err e, w) p = p
    run_tx-Keeps fn h (ok _, w) p = close_tx-Keeps w.db (fn w) p (h.keeps w p)

    -- A transaction of statements that keep the predicate keeps it.
    pub Keeps-with_tx : (fn : M A) → Keeps fn → Keeps (with_tx fn)
    unfolding with_tx
    Keeps-with_tx fn h = record {
      keeps =
          λ w p. run_tx-Keeps fn h (transaction_call w) (subst P (sym (db-transaction_call w)) p);
    }

  pub Keeps-get_context : {A : Type 0} (q : World → Option A) → Keeps (get_context q)
  Keeps-get_context q = record { keeps = λ w p. either_end _ _ w (get_context-Ends q w) p p }

  module _ {A B : Type 0} where
    -- A sequence keeps the predicate if its parts do; the second may rely on what the first returned.
    pub continue-Keeps :
        (f : A → M B) (r : Result A) (w : World)
        → P w.db
        → ((a : A) → r ≡ ok a → P (f a w).1.db)
        → P (continue f r w).1.db
    continue-Keeps f (ok a) w p h = h a refl
    continue-Keeps f (err e) w p h = p

    pub Keeps-then :
        (m : M A) (f : A → M B)
        → Keeps m
        → ((w : World) (a : A) → (m w).0 ≡ ok a → P w.db → P (m w).1.db → P (f a (m w).1).1.db)
        → Keeps (m >>= f)
    Keeps-then m f h k = record {
      keeps =
          λ w p. continue-Keeps f (m w).0 (m w).1 (h.keeps w p) (λ a e. k w a e p (h.keeps w p));
    }

    pub Keeps-bind : (m : M A) (f : A → M B) → Keeps m → ((a : A) → Keeps (f a)) → Keeps (m >>= f)
    Keeps-bind m f h k = Keeps-then m f h (λ w a e p q. (k a).keeps (m w).1 q)

  pub Keeps-draw_uuid : Keeps draw_uuid
  unfolding draw_uuid
  Keeps-draw_uuid = record { keeps = λ w p. p }

  pub Keeps-generate_token : Keeps generate_token
  Keeps-generate_token = record { keeps = λ w p. subst P (sym (db-generate_token w)) p }

  -- A row whose id is drawn first.
  pub Keeps-insert :
      {A : Type 0} (run : Str → World → Result A × Database)
      → ((id : Str) (w : World) → P w.db → P (run id w).1)
      → Keeps (draw_uuid >>= λ id. insert_context (run id))
  Keeps-insert run h =
      Keeps-bind draw_uuid (λ id. insert_context (run id)) Keeps-draw_uuid
        (λ id. Keeps-insert_context (run id) (h id))

  module _ {A : Type 0} where
    pub Keeps-pure : (a : A) → Keeps (pure a)
    Keeps-pure a = record { keeps = λ w p. p }

    pub Keeps-wrapped : (context : Str) (m : M A) → Keeps m → Keeps (wrapped context m)
    Keeps-wrapped context m h = record { keeps = h.keeps }
