-- ===== src/Service/Session/Polling.antt =====
-- What a client that polls the status of its session sees.
use kakao_relay.Prelude.{
  ℕ, Str, str_eq, str_eq_refl, true, false, ◌&&◌, Option, some, ◌≡◌, refl, sym, ap, subst, ◌∙◌,
  arith, find_where, find_where-true, find_where-update_where, to_upper, trim_space,
}
use kakao_relay.Model.{Account, Session, paired, is_pending_pairing}
use kakao_relay.World.{Database, World, ok, after}
use kakao_relay.Repository.Query.Cases.{Answers, get_context-Answers}
use kakao_relay.Runtime.{Runtime}
use kakao_relay.Repository.Sessions
use kakao_relay.Repository.Sessions.{is_live, awaits, has_id, set_paired, set_metadata}
use kakao_relay.Service.Session.{
  SessionStatusResult, success, verify_pairing_code, status_at, status_of, status_result,
  get_status, kakao_user_of_key, relay_token_of, relay_metadata, string_field, kakao_user_of,
}
use kakao_relay.Service.Session.Pairing.{paired_db, verify-Paired}

-- The row that a lookup by token finds after the pairing.
live-set_paired :
    (hash account_id key : Str) (now : ℕ) (s : Session)
    → is_pending_pairing s.status ≡ true
    → is_live hash (set_paired account_id key now s) ≡ is_live hash s
live-set_paired hash account_id key now s h = ground arith

find-paired :
    (hash id key token : Str) (now : ℕ) (a : Account) (db : Database) (s : Session)
    → find_where (is_live hash) db.sessions ≡ some s
    → (has_id id s && is_pending_pairing s.status) ≡ true
    → find_where (is_live hash) (paired_db id key now a token db).sessions
      ≡ some (set_metadata (relay_metadata token) now (set_paired a.id key now s))
find-paired hash id key token now a db s found waits =
    let f = set_paired a.id key now in
    let first =
      find_where-update_where (is_live hash) (λ r. has_id id r && is_pending_pairing r.status) f
        (λ r h. live-set_paired hash a.id key now r (ground arith)) db.sessions s found in
    let second =
      find_where-update_where (is_live hash) (has_id id) (set_metadata (relay_metadata token) now)
        (λ r h. refl) _ _ first in
    second ∙ ground (arith, waits)

-- The answer to a client whose session was paired at `now`.
abbrev pub paired_answer : Str → ℕ → Str → Str → SessionStatusResult
paired_answer key now account_id token = record {
  status = paired;
  paired_at = some now;
  kakao_user_id = kakao_user_of key;
  account_id = some account_id;
  relay_token = some token;
}

find_by_token_hash-found :
    (hash : Str) (v : World) (s : Session)
    → Answers v
    → find_where (is_live hash) v.db.sessions ≡ some s
    → Sessions.find_by_token_hash hash v ≡ (ok (some s), after v)
unfolding Sessions.find_by_token_hash
find_by_token_hash-found hash v s answers found =
    get_context-Answers (λ w. find_where (is_live hash) w.db.sessions) v answers
    ∙ ap (λ (o : Option Session). (ok o, after v)) found

get_status-found :
    (hash : Str) (v : World) (s : Session)
    → Answers v
    → find_where (is_live hash) v.db.sessions ≡ some s
    → is_pending_pairing s.status ≡ false
    → (get_status hash v).0 ≡ ok (some (status_result s))
unfolding get_status
get_status-found hash v s answers found closed =
    rw (find_by_token_hash-found hash v s answers found)
      (unfold status_of status_at in rw closed refl)

answer-paired :
    (key token : Str) (now : ℕ) (account_id : Str) (s : Session)
    → status_result (set_metadata (relay_metadata token) now (set_paired account_id key now s))
      ≡ paired_answer key now account_id token
unfolding relay_token_of string_field kakao_user_of_key str_eq
answer-paired key token now account_id s = refl

-- The pairing that a code led to reaches the client that holds the session's token: when the
-- session that was found by the code is also the one that its token finds, the next poll that the
-- database answers reports the pairing, with the account and its relay token.
pub get_status-paired :
    (rt : Runtime) (code key : Str) (w w' v : World) (id account_id token hash : Str) (s : Session)
    → verify_pairing_code rt code key w ≡ (success id account_id token, w')
    → find_where (awaits (to_upper rt.upper_table (trim_space code)) w.now) w.db.sessions ≡ some s
    → find_where (is_live hash) w.db.sessions ≡ some s
    → v.db ≡ w'.db
    → Answers v
    → (get_status hash v).0 ≡ ok (some (paired_answer key w.now account_id token))
get_status-paired rt code key w w' v id account_id token hash s done coded held later answers =
    let p = verify-Paired rt code key w w' id account_id token done in
    let same : p.session ≡ s = some-injective (sym p.found ∙ coded) in
    let waits =
      find_where-true (awaits (to_upper rt.upper_table (trim_space code)) w.now) w.db.sessions s
        coded in
    let row =
      find-paired hash id key token w.now p.account w.db s held
        (ground (arith, same, p.same_id, waits, str_eq_refl id)) in
    let moved =
      subst
        (λ (db : Database).
          find_where (is_live hash) db.sessions
          ≡ some (set_metadata (relay_metadata token) w.now (set_paired p.account.id key w.now s)))
        (sym (later ∙ p.rows)) row in
    get_status-found hash v _ answers moved refl
    ∙ ap (λ r. ok (some r)) (answer-paired key token w.now p.account.id s)
    ∙ ap (λ i. ok (some (paired_answer key w.now i token))) p.same_account
  where
    some-injective : {v u : Session} → some v ≡ some u → v ≡ u
    some-injective e = cc
