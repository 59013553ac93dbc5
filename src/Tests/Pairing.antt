-- ===== src/Tests/Pairing.antt =====
-- Examples of pairing.
use kakao_relay.Prelude.{
  Str, some, [], ◌∷◌, lit, ◌≡◌, refl, find_where, update_where, str_eq, to_upper, trim_space, All,
  ◌&&◌, false,
}
use kakao_relay.Model.{is_pending_pairing}
use kakao_relay.World.{World, ok, M}
use kakao_relay.Database.{with_tx}
use kakao_relay.Repository.Accounts
use kakao_relay.Repository.Sessions
use kakao_relay.Service.Session.{success, verify_pairing_code, pair_session, get_status}
use kakao_relay.Service.Session.Pairing.{Paired, verify-Paired}
use kakao_relay.Service.Session.Atomicity.{Unchanged, verify-Unchanged}
use kakao_relay.Service.Session.Polling.{paired_answer, get_status-paired}
use kakao_relay.Service.Session.Success.{Ready, verify-succeeds}
use kakao_relay.Service.Session.Race.{LeftOver, pair_session-LeftOver}
use kakao_relay.Tests.Data.{runtime, waiting, database, world, hash}

abbrev key : Str
key = lit "ch:u2"

abbrev code : Str
code = lit " ab-12 "

abbrev token : Str
token = lit "0102"

-- The world after the pairing.
abbrev after_pair : World
after_pair = (verify_pairing_code runtime code key world).1

pairs :
    verify_pairing_code runtime code key world ≡ (success (lit "s1") (lit "a9") token, after_pair)
unfolding verify_pairing_code Sessions.find_by_pairing_code find_where str_eq to_upper trim_space
    with_tx kakao_relay.World.generate_token Accounts.create Sessions.mark_paired
    Sessions.update_metadata
pairs = refl

verify-Paired_example :
    Paired runtime code key database 10 after_pair.db (lit "s1") (lit "a9") token
verify-Paired_example =
    verify-Paired runtime code key world after_pair (lit "s1") (lit "a9") token pairs

-- A wrong code leaves everything as it was.
verify-Unchanged_example : Unchanged database (verify_pairing_code runtime (lit "ZZ-99") key world)
verify-Unchanged_example = verify-Unchanged runtime key (lit "ZZ-99") world

coded :
    find_where
      (Sessions.awaits (to_upper runtime.upper_table (trim_space code)) 10)
      database.sessions
    ≡ some waiting
unfolding find_where to_upper trim_space str_eq
coded = refl

held : find_where (Sessions.is_live hash) database.sessions ≡ some waiting
unfolding find_where str_eq
held = refl

get_status-paired_example :
    (get_status hash after_pair).0 ≡ ok (some (paired_answer key 10 (lit "a9") token))
unfolding verify_pairing_code Sessions.find_by_pairing_code find_where str_eq to_upper trim_space
    with_tx kakao_relay.World.generate_token Accounts.create Sessions.mark_paired
    Sessions.update_metadata
get_status-paired_example =
    get_status-paired runtime code key world after_pair after_pair (lit "s1") (lit "a9") token hash
      waiting pairs coded held refl refl

-- Another request has paired the session before the transaction.
abbrev raced : World
raced = record after_pair { random = some (3 ∷ []) ∷ []; uuids = lit "a10" ∷ [] }

abbrev after_race : World
after_race = (pair_session runtime waiting (lit "ch:u3") raced).1

-- No row of the session waits any more.
lost :
    All
      (λ row. (Sessions.has_id (lit "s1") row && is_pending_pairing row.status) ≡ false)
      raced.db.sessions
unfolding verify_pairing_code Sessions.find_by_pairing_code find_where str_eq to_upper trim_space
    with_tx kakao_relay.World.generate_token Accounts.create Sessions.mark_paired
    Sessions.update_metadata update_where
lost = (refl, tt)

races :
    pair_session runtime waiting (lit "ch:u3") raced
    ≡ (success (lit "s1") (lit "a10") (lit "03"), after_race)
unfolding pair_session verify_pairing_code with_tx Sessions.find_by_pairing_code find_where str_eq
    to_upper trim_space kakao_relay.World.generate_token Accounts.create Sessions.mark_paired
    Sessions.update_metadata kakao_relay.Runtime.hash_token
races = refl

pair_session-LeftOver_example : LeftOver (lit "s1") (lit "a10") (lit "03") raced after_race
pair_session-LeftOver_example =
    pair_session-LeftOver runtime (lit "ch:u3") waiting raced after_race (lit "s1") (lit "a10")
      (lit "03") lost races

ready : Ready runtime (1 ∷ 2 ∷ []) (lit "a9") world
unfolding find_where str_eq
ready = record { no_faults = refl; drawn = refl; fresh_id = refl; free = refl }

verify-succeeds_example :
    (verify_pairing_code runtime code key world).0 ≡ success (lit "s1") (lit "a9") token
unfolding kakao_relay.World.hex_encode
verify-succeeds_example =
    verify-succeeds runtime code key (1 ∷ 2 ∷ []) (lit "a9") waiting world coded ready
