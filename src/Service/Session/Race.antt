-- ===== src/Service/Session/Race.antt =====
-- Pairing a session that another request has paired since it was looked up.
use kakao_relay.Prelude.{
  Str, false, ◌&&◌, [], ◌∷◌, ◌++◌, ◌≡◌, ap, subst, ◌∙◌, All, update_where, update_where-none,
}
use kakao_relay.Model.{Session, Account, is_pending_pairing}
use kakao_relay.World.{World}
use kakao_relay.Runtime.{Runtime}
use kakao_relay.Repository.Sessions.{has_id, set_paired, set_metadata}
use kakao_relay.Service.Session.{success, pair_session, relay_metadata}
use kakao_relay.Service.Session.Pairing.{pair_session-Pairs}

-- The session is linked to nobody else's account: only its token is replaced, and the new account
-- is referred to by no session.
pub record LeftOver (id account_id token : Str) (w w' : World) : Type 0 where
  pub account : Account
  pub same_account : account.id ≡ account_id
  pub added : w'.db.accounts ≡ w.db.accounts ++ account ∷ []
  pub sessions :
      w'.db.sessions
      ≡ update_where (has_id id) (set_metadata (relay_metadata token) w.now) w.db.sessions

-- When no row with the session's id waits for pairing any more, a pairing of the session that
-- reports success has added the account that it reports but linked no session to it: of the
-- sessions it has only set the token in the metadata of those with this id.
pub pair_session-LeftOver :
    (rt : Runtime) (key : Str) (s : Session) (w w' : World) (id account_id token : Str)
    → All (λ row. (has_id s.id row && is_pending_pairing row.status) ≡ false) w.db.sessions
    → pair_session rt s key w ≡ (success id account_id token, w')
    → LeftOver id account_id token w w'
pair_session-LeftOver rt key s w w' id account_id token gone h =
    let (a, (same_id, same_account, rows)) =
      pair_session-Pairs rt key s w w' id account_id token h in
    record {
      account = a;
      same_account = same_account;
      added = ap (λ db. db.accounts) rows;
      sessions =
          ap (λ db. db.sessions) rows
          ∙ ap (update_where (has_id id) (set_metadata (relay_metadata token) w.now))
              (subst (Unmoved a) same_id (update_where-none _ _ w.db.sessions gone));
    }
  where
    Unmoved : Account → Str → Type 0
    Unmoved a i =
        update_where (λ row. has_id i row && is_pending_pairing row.status)
          (set_paired a.id key w.now) w.db.sessions
        ≡ w.db.sessions
