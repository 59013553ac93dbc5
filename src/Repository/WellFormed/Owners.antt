-- ===== src/Repository/WellFormed/Owners.antt =====
-- The statements on accounts and sessions keep the tables well-formed.
use kakao_relay.Prelude.{
  subst, sym, str_eq, str_eq_iff, update_where-none, ℕ, Str, option_is, Bool, true, false, All, ◌∙◌,
  ◌≡◌, refl, Option, none, some, List, [], ◌∷◌, ◌++◌, All-append, All-map, All-select_keep, is_some,
  find_where, update_where, delete_where, Bool-cases, inl, inr, arith,
}
use kakao_relay.Prelude.Keys.{
  Distinct, Distinct-append, Distinct-update_where, Distinct-select, All-update_where,
  find_where-none, is_some-append, is_some-update_where,
}
use kakao_relay.Model.{ℤ, Json, Account, Session}
use kakao_relay.World.{Database, World}
use kakao_relay.Repository.Accounts
use kakao_relay.Repository.Sessions
use kakao_relay.Repository.Statements.{linked, with_accounts, with_sessions}
use kakao_relay.Repository.WellFormed.{WellFormed, AccountsOk, SessionsOk, same_hash}
use kakao_relay.Prelude.Unique.{Unique, Unique-append, same_value, same_value-sym}

-- A table of accounts in which every account of another one is found.
module _ (db : Database) (rows : List Account)
    (keeps : (s : Str) → linked (some s) db.accounts ≡ true → linked (some s) rows ≡ true) where
  links-kept : (o : Option Str) → linked o db.accounts ≡ true → linked o rows ≡ true
  links-kept none h = h
  links-kept (some s) h = keeps s h

  with_accounts-WellFormed : AccountsOk rows → WellFormed db → WellFormed (with_accounts db rows)
  with_accounts-WellFormed good wf = record {
    accounts = good;
    sessions = record {
      ids = wf.sessions.ids;
      hashes = wf.sessions.hashes;
      codes = wf.sessions.codes;
      links = All-map _ _ (λ s h. links-kept s.account_id h) db.sessions wf.sessions.links;
    };
    conversations = record {
      ids = wf.conversations.ids;
      keys = wf.conversations.keys;
      chats = wf.conversations.chats;
      links =
          All-map _ _ (λ c h. links-kept c.account_id h) db.conversations wf.conversations.links;
    };
    inbound = record {
      ids = wf.inbound.ids;
      events = wf.inbound.events;
      links = All-map _ _ (λ m h. keeps m.account_id h) db.inbound wf.inbound.links;
    };
    outbound = record {
      ids = wf.outbound.ids;
      links = All-map _ _ (λ m h. keeps m.account_id h) db.outbound wf.outbound.links;
      replies = wf.outbound.replies;
    };
  }

no_hash :
    (a : Account) (hash : Str)
    → option_is a.relay_token_hash hash ≡ false
    → same_value a.relay_token_hash (some hash) ≡ false
no_hash a hash h = same_value-sym a.relay_token_hash (some hash) ∙ h

pub insert_account-WellFormed :
    (id hash : Str) (limit : ℤ) (now : ℕ) (w : World)
    → WellFormed w.db
    → WellFormed (Accounts.insert_account (Accounts.new_account id hash limit now) hash w).1
unfolding Accounts.insert_account
insert_account-WellFormed id hash limit now w wf =
    let new = Accounts.new_account id hash limit now in
    elim (Bool-cases (is_some (find_where (Accounts.clashes id hash) w.db.accounts))) [
      | inl clash ↦ rw clash wf
      | inr free ↦ rw free (
          with_accounts-WellFormed w.db _
            (λ s h. is_some-append (Accounts.has_id s) w.db.accounts _ h)
            (record {
              ids = Distinct-append _ w.db.accounts new wf.accounts.ids (
                  find_where-none (Accounts.clashes id hash) _ w.db.accounts
                    (λ a h. ground (arith, h)) free);
              hashes =
                  Unique-append same_hash
                    (λ a b. same_value-sym a.relay_token_hash b.relay_token_hash) w.db.accounts new
                    wf.accounts.hashes
                    (find_where-none (Accounts.clashes id hash) _ w.db.accounts
                      (λ a h. no_hash a hash (ground (arith, h))) free);
            })
            wf)
    ]

module _ (id hash : Str) (now : ℕ) where
  abbrev replaced : List Account → List Account
  replaced rows = update_where (Accounts.has_id id) (Accounts.set_token hash now) rows

  abbrev Free : List Account → Type 0
  Free rows = All (λ a. Accounts.taken id hash a ≡ false) rows

  -- Beside the row with the id, no row has the id or the hash.
  others_apart :
      (x : Account) (xs : List Account)
      → Accounts.has_id id x ≡ true
      → All (λ (y : Account). str_eq y.id x.id ≡ false) xs
      → Free xs
      → All (λ y. Accounts.has_id id y ≡ false) xs
        × All (λ (y : Account). same_value y.relay_token_hash (some hash) ≡ false) xs
  others_apart x [] is e f = (tt, tt)
  others_apart x (y ∷ ys) is (e, es) (f, fs) =
      let rest = others_apart x ys is es fs in
      let other : Accounts.has_id id y ≡ false =
        subst (λ i. str_eq y.id i ≡ false) ((str_eq_iff x.id id).0 is) e in
      ((other, rest.0), (no_hash y hash (ground (arith, f, other)), rest.1))

  replaced-Unique :
      (rows : List Account)
      → Distinct (λ (a : Account). a.id) rows
      → Unique same_hash rows
      → Free rows
      → Unique same_hash (replaced rows)
  unfolding Distinct Unique update_where
  replaced-Unique [] d u f = tt
  replaced-Unique (x ∷ xs) (d, ds) (u, us) (f, fs) = elim (Bool-cases (Accounts.has_id id x)) [
    | inl is ↦
        let (ids, hashes) = others_apart x xs is d fs in
        rw (is, update_where-none (Accounts.has_id id) (Accounts.set_token hash now) xs ids)
          (hashes, us)
    | inr other ↦
        let apart_here : option_is x.relay_token_hash hash ≡ false = ground (arith, f, other) in
        rw other (
          All-update_where (λ y. same_hash y x ≡ false) (Accounts.has_id id)
              (Accounts.set_token hash now) (λ y h. apart_here) xs u,
          replaced-Unique xs ds us fs,
        )
  ]

  kept_links :
      (db : Database) (s : Str)
      → linked (some s) db.accounts ≡ true
      → linked (some s) (replaced db.accounts) ≡ true
  kept_links db s h =
      rw
        (is_some-update_where (Accounts.has_id s) (Accounts.has_id id) (Accounts.set_token hash now)
          (λ a. refl) db.accounts)
        h

  replaced-WellFormed :
      (db : Database)
      → Unique same_hash (replaced db.accounts)
      → WellFormed db
      → WellFormed (with_accounts db (replaced db.accounts))
  replaced-WellFormed db hashes wf =
      with_accounts-WellFormed db (replaced db.accounts) (kept_links db)
        (record {
          ids =
              Distinct-update_where _ (Accounts.has_id id) (Accounts.set_token hash now) (λ a. refl)
                db.accounts wf.accounts.ids;
          hashes = hashes;
        })
        wf

  pub update_token-WellFormed :
      (db : Database) → WellFormed db → WellFormed (Accounts.update_token_row id hash now db).1
  unfolding Accounts.update_token_row
  update_token-WellFormed db wf =
      elim (Bool-cases (is_some (find_where (Accounts.has_id id) db.accounts))) [
        | inr missing ↦
            let none_there =
              find_where-none (Accounts.has_id id) (Accounts.has_id id) db.accounts (λ a h. h)
                missing in
            let same =
              update_where-none (Accounts.has_id id) (Accounts.set_token hash now) db.accounts
                none_there in
            rw missing
              (replaced-WellFormed db (subst (Unique same_hash) (sym same) wf.accounts.hashes) wf)
        | inl there ↦
            elim (Bool-cases (is_some (find_where (Accounts.taken id hash) db.accounts))) [
              | inl clash ↦ rw (there, clash) wf
              | inr free ↦
                  rw (there, free)
                    (replaced-WellFormed db
                      (replaced-Unique db.accounts wf.accounts.ids wf.accounts.hashes
                        (find_where-none (Accounts.taken id hash) _ db.accounts (λ a h. h) free))
                      wf)
            ]
      ]

with_sessions-WellFormed :
    (db : Database) (rows : List Session)
    → WellFormed db
    → SessionsOk db.accounts rows
    → WellFormed (with_sessions db rows)
with_sessions-WellFormed db rows wf good = record {
  accounts = wf.accounts;
  sessions = good;
  conversations = wf.conversations;
  inbound = wf.inbound;
  outbound = wf.outbound;
}

pub insert_session-WellFormed :
    (id hash code : Str) (expires_at : ℕ) (metadata : Option Json) (now : ℕ) (db : Database)
    → WellFormed db
    → WellFormed
        (Sessions.insert_session (Sessions.new_session id hash code expires_at metadata now) db).1
unfolding Sessions.insert_session
insert_session-WellFormed id hash code expires_at metadata now db wf =
    let new = Sessions.new_session id hash code expires_at metadata now in
    let old = wf.sessions in
    elim (Bool-cases (is_some (find_where (Sessions.clashes new) db.sessions))) [
      | inl clash ↦ rw clash wf
      | inr free ↦ rw free (
          with_sessions-WellFormed db (db.sessions ++ new ∷ []) wf (record {
            ids = Distinct-append _ db.sessions new old.ids (
                find_where-none (Sessions.clashes new) _ db.sessions (λ s h. ground (arith, h))
                  free);
            hashes = Distinct-append _ db.sessions new old.hashes (
                find_where-none (Sessions.clashes new) _ db.sessions (λ s h. ground (arith, h))
                  free);
            codes = Distinct-append _ db.sessions new old.codes (
                find_where-none (Sessions.clashes new) _ db.sessions (λ s h. ground (arith, h))
                  free);
            links = All-append _ db.sessions (new ∷ []) old.links (refl, tt);
          }))
    ]

-- An update that leaves the three unique columns alone and keeps the links.
pub update_sessions-WellFormed :
    (p : Session → Bool) (f : Session → Session) (db : Database)
    → ((s : Session)
        → ((f s).id ≡ s.id)
          × ((f s).session_token_hash ≡ s.session_token_hash)
          × ((f s).pairing_code ≡ s.pairing_code))
    → ((s : Session)
        → linked s.account_id db.accounts ≡ true
        → linked (f s).account_id db.accounts ≡ true)
    → WellFormed db
    → WellFormed (with_sessions db (update_where p f db.sessions))
update_sessions-WellFormed p f db same kept wf =
    with_sessions-WellFormed db (update_where p f db.sessions) wf (record {
      ids = Distinct-update_where _ p f (λ s. (same s).0) db.sessions wf.sessions.ids;
      hashes = Distinct-update_where _ p f (λ s. (same s).1) db.sessions wf.sessions.hashes;
      codes = Distinct-update_where _ p f (λ s. (same s).2) db.sessions wf.sessions.codes;
      links = All-update_where _ p f kept db.sessions wf.sessions.links;
    })

pub delete_sessions-WellFormed :
    (p : Session → Bool) (db : Database)
    → WellFormed db
    → WellFormed (with_sessions db (delete_where p db.sessions))
unfolding delete_where
delete_sessions-WellFormed p db wf =
    with_sessions-WellFormed db (delete_where p db.sessions) wf (record {
      ids = Distinct-select _ _ db.sessions wf.sessions.ids;
      hashes = Distinct-select _ _ db.sessions wf.sessions.hashes;
      codes = Distinct-select _ _ db.sessions wf.sessions.codes;
      links = All-select_keep _ _ db.sessions wf.sessions.links;
    })
