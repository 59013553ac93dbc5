-- ===== src/Server/Invariants/Pairing.antt =====
-- internal/service/session.go: what creating, polling and pairing keep.
use kakao_relay.Prelude.{
  ℕ, Str, Bool, true, ◌≡◌, refl, sym, subst, Option, none, some, List, [], ◌∷◌, ◌++◌, is_some,
  find_where, str_eq_refl, ◌+◌, ◌*◌, Bool-cases, arith, inl, inr, lit, ap,
}
use kakao_relay.Model.{ℤ, Account, Session, minute}
use kakao_relay.World.{
  Database, World, Result, ok, err, M, pure, wrap, wrapped, ◌>>◌, generate_token,
}
use kakao_relay.Runtime.{Runtime, hash_token}
use kakao_relay.Repository.Accounts
use kakao_relay.Repository.Sessions
use kakao_relay.Repository.Statements.{KeptBy, links}
use kakao_relay.Repository.Statements.Calls.{
  Keeps, Keeps-bind, Keeps-then, Keeps-pure, Keeps-wrapped, Keeps-get_context, Keeps-with_tx,
  Keeps-generate_token, continue-Keeps,
}
use kakao_relay.Repository.Statements.Writes.{
  create_account-Keeps, create_session-Keeps, mark_expired-Keeps, mark_paired-keeps,
  update_metadata-Keeps,
}
use kakao_relay.Service.Session.{
  create_session, generate_session_pairing_code, create_account_for_session, pair_tx, pair_session,
  pair_found, verify_pairing_code, relay_metadata, get_status, status_of, status_at, is_overdue,
  session_pairing_expiry_mins,
}
use kakao_relay.Service.Session.Pairing.{create-ok}
use kakao_relay.Service.Message.{read_now}

pub find_where-last :
    {A : Type 0} (p : A → Bool) (xs : List A) (x : A)
    → p x ≡ true
    → is_some (find_where p (xs ++ x ∷ [])) ≡ true
unfolding find_where
find_where-last p [] x h = rw h refl
find_where-last p (y ∷ ys) x h = ground (arith, find_where-last p ys x h)

wrap-ok : {A : Type 0} (context : Str) (r : Result A) (a : A) → wrap context r ≡ ok a → r ≡ ok a
wrap-ok context (ok b) a h = h
wrap-ok context (err e) a h = absurd (cc)

-- The account of a successful creation is a row.
created_account-links :
    (rt : Runtime) (w : World) (c : Account × Str)
    → (create_account_for_session rt w).0 ≡ ok c
    → links (some c.0.id) (create_account_for_session rt w).1.db ≡ true
created_account-links rt w (a, t) h =
    let (db, now) =
      create-ok rt w (create_account_for_session rt w).1 a t
        (ap (λ (r : Result (Account × Str)). (r, (create_account_for_session rt w).1)) h) in
    subst (λ (d : Database). links (some a.id) d ≡ true) (sym db)
      (find_where-last (Accounts.has_id a.id) w.db.accounts a (str_eq_refl a.id))

module _ (P : Database → Type 0) (law : KeptBy P) (rt : Runtime) where
  create_account_for_session-Keeps : Keeps P (create_account_for_session rt)
  unfolding create_account_for_session
  create_account_for_session-Keeps =
      Keeps-bind P _ _
        (Keeps-wrapped P (lit "generate token") generate_token (Keeps-generate_token P))
        λ token.
          Keeps-bind P _ _
            (Keeps-wrapped P (lit "create account")
              (Accounts.create (hash_token rt token) (ℤ.pos 60))
              (create_account-Keeps P law (hash_token rt token) (ℤ.pos 60)))
            λ account. Keeps-pure P (account, token)

  module _ (id key : Str) where
    abbrev finish : Account × Str → M (Account × Str)
    finish created =
        wrapped (lit "update metadata") (Sessions.update_metadata id (relay_metadata created.1))
        >> pure created

    abbrev mark : Account × Str → M (Account × Str)
    mark created =
        wrapped (lit "mark paired") (Sessions.mark_paired id (created.0).id key) >> finish created

    finish-Keeps : (created : Account × Str) → Keeps P (finish created)
    finish-Keeps created =
        Keeps-bind P _ _
          (Keeps-wrapped P (lit "update metadata")
            (Sessions.update_metadata id (relay_metadata created.1))
            (update_metadata-Keeps P law id (relay_metadata created.1)))
          λ _. Keeps-pure P created

    mark-keeps :
        (created : Account × Str) (w : World)
        → links (some created.0.id) w.db ≡ true
        → P w.db
        → P (mark created w).1.db
    mark-keeps created w linked p =
        continue-Keeps P (λ _. finish created) _ _
          (mark_paired-keeps P law id created.0.id key w linked p)
          (λ a e.
            (finish-Keeps created).keeps _ (mark_paired-keeps P law id created.0.id key w linked p))

    pair_tx-Keeps : Keeps P (pair_tx rt id key)
    unfolding pair_tx
    pair_tx-Keeps =
        Keeps-then P (wrapped (lit "create account") (create_account_for_session rt)) mark
          (Keeps-wrapped P (lit "create account") (create_account_for_session rt)
            create_account_for_session-Keeps)
          (λ w created e p q.
            mark-keeps created (create_account_for_session rt w).1
              (created_account-links rt w created (wrap-ok (lit "create account") _ created e)) q)

    pub pair_session-keeps :
        (s : Session) (w : World) → s.id ≡ id → P w.db → P (pair_session rt s key w).1.db
    unfolding pair_session
    pair_session-keeps s w same p =
        (Keeps-with_tx P (pair_tx rt s.id key)
            (subst (λ i. Keeps P (pair_tx rt i key)) (sym same) pair_tx-Keeps)).keeps
          w p

  pair_found-keeps :
      (key : Str) (r : Result (Option Session)) (w : World)
      → P w.db
      → P (pair_found rt key (r, w)).1.db
  unfolding pair_found
  pair_found-keeps key (ok (some s)) w p = pair_session-keeps s.id key s w refl p
  pair_found-keeps key (ok none) w p = p
  pair_found-keeps key (err e) w p = p

  pub verify-keeps :
      (code key : Str) (w : World) → P w.db → P (verify_pairing_code rt code key w).1.db
  unfolding verify_pairing_code Sessions.find_by_pairing_code
  verify-keeps code key w p = pair_found-keeps key _ _ ((Keeps-get_context P _).keeps w p)

  generate_code-Keeps : Keeps P generate_session_pairing_code
  unfolding generate_session_pairing_code
  generate_code-Keeps = record { keeps = λ w p. p }

  pub create-Keeps : Keeps P (create_session rt)
  unfolding create_session
  create-Keeps =
      Keeps-bind P _ _
        (Keeps-wrapped P (lit "generate token") generate_token (Keeps-generate_token P))
        λ token. Keeps-bind P _ _ generate_code-Keeps λ code.
          Keeps-bind P read_now _ (record { keeps = λ w p. p })
            λ now.
              Keeps-bind P _ _
                (Keeps-wrapped P (lit "create session")
                  (Sessions.create (hash_token rt token) code
                    (now + session_pairing_expiry_mins * minute) none)
                  (create_session-Keeps P law (hash_token rt token) code
                    (now + session_pairing_expiry_mins * minute) none))
                λ session. record { keeps = λ w p. p }

  status_at-keeps : (s : Session) (now : ℕ) (w : World) → P w.db → P (status_at s now w).1.db
  unfolding status_at
  status_at-keeps s now w p = elim (Bool-cases (is_overdue now s)) [
    | inl late ↦ rw late ((mark_expired-Keeps P law s.id).keeps w p)
    | inr open_still ↦ rw open_still p
  ]

  status_of-keeps : (o : Option Session) (w : World) → P w.db → P (status_of o w).1.db
  unfolding status_of
  status_of-keeps none w p = p
  status_of-keeps (some s) w p = status_at-keeps s w.now w p

  pub get_status-Keeps : (hash : Str) → Keeps P (get_status hash)
  unfolding get_status Sessions.find_by_token_hash
  get_status-Keeps hash =
      Keeps-bind P _ status_of
        (Keeps-wrapped P (lit "find session") (Sessions.find_by_token_hash hash)
          (Keeps-get_context P _))
        λ o. record { keeps = status_of-keeps o }
