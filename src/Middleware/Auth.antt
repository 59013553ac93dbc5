-- ===== src/Middleware/Auth.antt =====
-- internal/middleware/auth.go
pub mod Admission
use kakao_relay.Prelude.{
  ℕ, Str, Bool, true, false, Option, none, some, [], lit, is_empty, has_prefix, drop, if◌then◌else◌,
}
use kakao_relay.Model.{Account, Session, is_paired_session}
use kakao_relay.World.{World, Result, ok, err}
use kakao_relay.Runtime.{Runtime, hash_token}
use kakao_relay.Repository.Accounts
use kakao_relay.Repository.Sessions

-- The token of the query string, and the Authorization header; absent ones are "".
pub record AuthRequest : Type 0 where
  pub query_token : Str
  pub authorization : Str

-- `extractToken`
unfoldable pub extract_token : AuthRequest → Str
extract_token r =
    if is_empty r.query_token
    then (if has_prefix r.authorization (lit "Bearer ") then drop 7 r.authorization else [])
    else r.query_token

-- A refusal, or the context values that the next handler finds.
pub data AuthOutcome : Type 0 where
  refused : ℕ → AuthOutcome
  proceed : Session → Option Account → AuthOutcome

abbrev pub linked : Result (Option Account) → Option Account
linked (ok o) = o
linked (err _) = none

-- The linked account of a paired session; an error leaves it out.
unfoldable pub find_account : Bool → Option Str → World → Option Account × World
find_account true (some id) w = let (r, w') = Accounts.find_by_id id w in (linked r, w')
find_account true none w = (none, w)
find_account false o w = (none, w)

unfoldable pub with_session : Result (Option Session) × World → AuthOutcome × World
unfolding find_account
with_session (err _, w) = (refused 500, w)
with_session (ok none, w) = (refused 401, w)
with_session (ok (some s), w) =
    let (a, w') = find_account (is_paired_session s.status) s.account_id w in (proceed s a, w')

-- `AuthMiddleware.Handler`
unfoldable pub authenticate : Runtime → AuthRequest → World → AuthOutcome × World
unfolding with_session extract_token
authenticate rt r w =
    if is_empty (extract_token r)
    then (refused 401, w)
    else with_session (Sessions.find_by_token_hash (hash_token rt (extract_token r)) w)
