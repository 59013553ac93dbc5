-- ===== src/Middleware/Auth/Admission.antt =====
-- Whom `AuthMiddleware` lets through.
use kakao_relay.Prelude.{
  Str, Bool, true, false, Option, none, some, ◌≡◌, refl, ◌⊎◌, inl, inr, is_empty, find_where,
  Bool-cases,
}
use kakao_relay.Model.{Account, Session, is_paired_session}
use kakao_relay.World.{Database, World, ok, after}
use kakao_relay.Runtime.{Runtime, hash_token}
use kakao_relay.Repository.Query.Cases.{Ends, get_context-Ends}
use kakao_relay.Repository.Accounts
use kakao_relay.Repository.Sessions
use kakao_relay.Middleware.Auth.{
  AuthRequest, AuthOutcome, refused, proceed, extract_token, find_account, with_session,
  authenticate,
}

-- A linked account is an account row, and the session is paired to it.
pub LinkedTo : Database → Session → Option Account → Type 0
LinkedTo db s none = Unit
LinkedTo db s (some a) =
    (is_paired_session s.status ≡ true)
    × ((id : Str) × (s.account_id ≡ some id)
        × (find_where (Accounts.has_id id) db.accounts ≡ some a))

-- What a request that goes on carries.
pub Admitted : Runtime → Str → Database → AuthOutcome → Type 0
Admitted rt token db (refused status) = (status ≡ 401) ⊎ (status ≡ 500)
Admitted rt token db (proceed s a) =
    (is_empty token ≡ false)
    × (find_where (Sessions.is_live (hash_token rt token)) db.sessions ≡ some s)
    × LinkedTo db s a

linked-LinkedTo :
    (db : Database) (s : Session) (id : Str) (o : Option Account)
    → is_paired_session s.status ≡ true
    → s.account_id ≡ some id
    → find_where (Accounts.has_id id) db.accounts ≡ o
    → LinkedTo db s o
unfolding LinkedTo
linked-LinkedTo db s id none is same e = tt
linked-LinkedTo db s id (some a) is same e = (is, (id, same, e))

account_row-Ends :
    (id : Str) (w : World)
    → Ends
        (Accounts.find_by_id id w)
        w
        (ok (find_where (Accounts.has_id id) w.db.accounts), after w)
unfolding Accounts.find_by_id
account_row-Ends id w = get_context-Ends (λ v. find_where (Accounts.has_id id) v.db.accounts) w

find_account-LinkedTo :
    (s : Session) (b : Bool) (o : Option Str) (w : World)
    → is_paired_session s.status ≡ b
    → s.account_id ≡ o
    → LinkedTo w.db s (find_account b o w).0
unfolding find_account
find_account-LinkedTo s true (some id) w is same = elim (account_row-Ends id w) [
  | inl (e, failed) ↦ rw failed (unfold LinkedTo in tt)
  | inr found ↦ rw found (linked-LinkedTo w.db s id _ is same refl)
]
find_account-LinkedTo s true none w is same = unfold LinkedTo in tt
find_account-LinkedTo s false o w is same = unfold LinkedTo in tt

with_session-Admitted :
    (rt : Runtime) (token : Str) (o : Option Session) (w : World)
    → is_empty token ≡ false
    → find_where (Sessions.is_live (hash_token rt token)) w.db.sessions ≡ o
    → Admitted rt token w.db (with_session (ok o, w)).0
unfolding with_session Admitted
with_session-Admitted rt token none w named found = inl refl
with_session-Admitted rt token (some s) w named found =
    (named, found, find_account-LinkedTo s (is_paired_session s.status) s.account_id w refl refl)

-- A request is refused with 401 or 500, or it carries a token that is not empty. Then the session
-- that the handlers see is the row with the token's hash that is pending or paired, and an account
-- that they see is the row that this session, which is paired, names.
pub authenticate-Admitted :
    (rt : Runtime) (r : AuthRequest) (w : World)
    → Admitted rt (extract_token r) w.db (authenticate rt r w).0
unfolding authenticate Sessions.find_by_token_hash
authenticate-Admitted rt r w = elim (Bool-cases (is_empty (extract_token r))) [
  | inl blank ↦ rw blank (unfold Admitted in inl refl)
  | inr named ↦
      rw named
        (elim (get_context-Ends
          (λ v. find_where (Sessions.is_live (hash_token rt (extract_token r))) v.db.sessions) w) [
            | inl (e, failed) ↦ rw failed (unfold with_session Admitted in inr refl)
            | inr found ↦
                rw found (with_session-Admitted rt (extract_token r) _ (after w) named refl)
          ])
]
