-- ===== src/Service/Session.antt =====
-- internal/service/session.go
pub mod Creation
pub mod Polling
pub mod Race
pub mod Codes
pub mod Atomicity
pub mod Pairing
pub mod Success
use kakao_relay.Prelude.{
  ℕ, suc, zero, ◌+◌, ◌*◌, ◌%◌, Str, Bool, false, true, ◌&&◌, Option, none, some, List, [], ◌∷◌,
  ◌++◌, lit, ltb, if◌then◌else◌, to_upper, trim_space, split, str_eq,
}
use kakao_relay.Model.{
  ℤ, Json, Fields, end, field, Account, Session, SessionStatus, expired, minute, is_pending_pairing,
  pending_pairing,
}
use kakao_relay.World.{
  Event, World, Result, ok, err, M, pure, fail, wrapped, next, generate_token, ◌>>=◌, ◌>>◌,
}
use kakao_relay.Runtime.{Runtime, hash_token}
use kakao_relay.Database.{with_tx}
use kakao_relay.Broker.{publish}
use kakao_relay.Repository.Accounts
use kakao_relay.Repository.Sessions
use kakao_relay.Service.Message.{read_now}

abbrev pub session_pairing_code_chars : Str
session_pairing_code_chars = lit "ABCDEFGHJKLMNPQRSTUVWXYZ23456789"

abbrev pub session_pairing_expiry_mins : ℕ
session_pairing_expiry_mins = 5

pub record CreateSessionResult : Type 0 where
  pub session_token : Str
  pub pairing_code : Str
  pub expires_in : ℕ
  pub status : SessionStatus
  pub expires_at : ℕ

pub record SessionStatusResult : Type 0 where
  pub status : SessionStatus
  pub paired_at : Option ℕ
  pub kakao_user_id : Option Str
  pub account_id : Option Str
  pub relay_token : Option Str

-- `Success` with the fields that it fills, or `Error`.
pub data SessionPairResult : Type 0 where
  success : (session_id account_id relay_token : Str) → SessionPairResult
  invalid_code internal_error : SessionPairResult

-- `chars[i]`
abbrev pub char_at : Str → ℕ → ℕ
char_at [] i = 0
char_at (c ∷ s) zero = c
char_at (c ∷ s) (suc i) = char_at s i

-- `chars[n.Int64()]` for one draw of `rand.Int` below `len(chars)`.
unfoldable pub code_char : ℕ → ℕ
code_char n = char_at session_pairing_code_chars (n % 32)

-- A loop of `n` draws.
unfoldable pub draw_chars : ℕ → List ℕ → Str × List ℕ
unfolding code_char
draw_chars zero draws = ([], draws)
draw_chars (suc n) draws =
    let (d, rest) = next 0 draws in let (s, left) = draw_chars n rest in (code_char d ∷ s, left)

-- `generateSessionPairingCode`
unfoldable pub generate_session_pairing_code : M Str
unfolding draw_chars
generate_session_pairing_code w =
    let (part1, rest) = draw_chars 4 w.draws in
    let (part2, left) = draw_chars 4 rest in (ok (part1 ++ b'-' ∷ part2), record w { draws = left })

unfoldable pub create_session : Runtime → M CreateSessionResult
create_session rt = do
  token ← wrapped (lit "generate token") generate_token
  code ← generate_session_pairing_code
  now ← read_now
  let expires_at = now + session_pairing_expiry_mins * minute
  session ←
      wrapped (lit "create session") (Sessions.create (hash_token rt token) code expires_at none)
  pure (record {
    session_token = token;
    pairing_code = code;
    expires_in = session_pairing_expiry_mins * 60;
    status = pending_pairing;
    expires_at = expires_at;
  })

-- `err` is dropped.
abbrev pub ignored : M (Unit {0}) → M (Unit {0})
ignored m w = let (r, w') = m w in (ok tt, w')

-- A value that `json.Unmarshal` puts into a `map[string]string`: a string, or null, which is "".
abbrev string_value : Json → Option Str
string_value (Json.str s) = some s
string_value Json.null = some []
string_value _ = none

-- The last value of a repeated key counts, and one bad value spoils the whole object.
abbrev with_value : Bool → Option Str → Option (Option Str) → Option (Option Str)
with_value here none rest = none
with_value here (some v) none = none
with_value here (some v) (some (some u)) = some (some u)
with_value true (some v) (some none) = some (some v)
with_value false (some v) (some none) = some none

abbrev field_value : Str → Fields → Option (Option Str)
field_value key end = some none
field_value key (field k v fs) = with_value (str_eq k key) (string_value v) (field_value key fs)

-- `meta[key]` after `json.Unmarshal` into a `map[string]string`: `none` where that fails.
unfoldable pub string_field : Str → Json → Option (Option Str)
string_field key Json.null = some none
string_field key (Json.obj fs) = field_value key fs
string_field key _ = none

-- The relay token of a session's metadata.
unfoldable pub relay_token_of : Option Json → Option Str
unfolding string_field
relay_token_of none = none
relay_token_of (some m) = elim (string_field (lit "relayToken") m) [ none ↦ none | some t ↦ t ]

-- The second part of the conversation key, if there is one.
unfoldable pub second_part : List Str → Option Str
second_part (_ ∷ p ∷ _) = some p
second_part _ = none

unfoldable pub kakao_user_of : Str → Option Str
unfolding second_part
kakao_user_of key = second_part (split b':' key)

unfoldable pub kakao_user_of_key : Option Str → Option Str
unfolding kakao_user_of
kakao_user_of_key none = none
kakao_user_of_key (some key) = kakao_user_of key

-- `now.After(session.ExpiresAt)` for a session that waits for pairing.
abbrev pub is_overdue : ℕ → Session → Bool
is_overdue now s = is_pending_pairing s.status && ltb s.expires_at now

abbrev pub expired_result : SessionStatusResult
expired_result = record {
  status = expired;
  paired_at = none;
  kakao_user_id = none;
  account_id = none;
  relay_token = none;
}

abbrev pub status_result : Session → SessionStatusResult
status_result s = record {
  status = s.status;
  paired_at = s.paired_at;
  kakao_user_id = kakao_user_of_key s.paired_conversation_key;
  account_id = s.account_id;
  relay_token = relay_token_of s.metadata;
}

-- Expiry is noticed on reading; `MarkExpired`'s error is dropped.
unfoldable pub status_at : Session → ℕ → M (Option SessionStatusResult)
status_at s now =
    if is_overdue now s
    then (ignored (Sessions.mark_expired s.id) >> pure (some expired_result))
    else pure (some (status_result s))

unfoldable pub status_of : Option Session → M (Option SessionStatusResult)
unfolding status_at
status_of none = pure none
status_of (some s) = read_now >>= status_at s

unfoldable pub get_status : Str → M (Option SessionStatusResult)
unfolding status_of
get_status hash = do
  session ← wrapped (lit "find session") (Sessions.find_by_token_hash hash)
  status_of session

-- `FindByTokenHash`, `FindByID` and `FindRecent`
unfoldable pub find_by_token_hash : Str → M (Option Session)
find_by_token_hash hash = Sessions.find_by_token_hash hash

unfoldable pub find_by_id : Str → M (Option Session)
find_by_id id = Sessions.find_by_id id

unfoldable pub find_recent : ℕ → M (List Session)
find_recent limit = Sessions.find_recent limit

unfoldable pub disconnect : Str → M (Unit {0})
disconnect id = Sessions.mark_disconnected id

unfoldable pub delete : Str → M (Unit {0})
delete id = Sessions.delete id

-- `createAccountForSessionTx`
unfoldable pub create_account_for_session : Runtime → M (Account × Str)
create_account_for_session rt = do
  token ← wrapped (lit "generate token") generate_token
  account ← wrapped (lit "create account") (Accounts.create (hash_token rt token) (ℤ.pos 60))
  pure (account, token)

abbrev pub relay_metadata : Str → Json
relay_metadata token = Json.obj (field (lit "relayToken") (Json.str token) end)

-- The function that `VerifyPairingCode` runs in a transaction.
unfoldable pub pair_tx : Runtime → Str → Str → M (Account × Str)
unfolding create_account_for_session
pair_tx rt session_id key = do
  created ← wrapped (lit "create account") (create_account_for_session rt)
  wrapped (lit "mark paired") (Sessions.mark_paired session_id (created.0).id key)
  wrapped (lit "update metadata") (Sessions.update_metadata session_id (relay_metadata created.1))
  pure created

abbrev pub pair_result : Str → Result (Account × Str) → SessionPairResult
pair_result session_id (ok (account, token)) = success session_id account.id token
pair_result session_id (err _) = internal_error

-- The second half: the session was found, and the transaction runs.
unfoldable pub pair_session : Runtime → Session → Str → World → SessionPairResult × World
unfolding pair_tx
pair_session rt s key w = let (r, w') = with_tx (pair_tx rt s.id key) w in (pair_result s.id r, w')

-- What follows the lookup of the code.
unfoldable pub pair_found :
    Runtime → Str → Result (Option Session) × World → SessionPairResult × World
unfolding pair_session
pair_found rt key (err _, w) = (invalid_code, w)
pair_found rt key (ok none, w) = (invalid_code, w)
pair_found rt key (ok (some s), w) = pair_session rt s key w

-- `VerifyPairingCode`
unfoldable pub verify_pairing_code : Runtime → Str → Str → World → SessionPairResult × World
unfolding pair_found
verify_pairing_code rt code key w =
    pair_found rt key (Sessions.find_by_pairing_code (to_upper rt.upper_table (trim_space code)) w)

abbrev pub or_empty : Option Str → Str
or_empty none = []
or_empty (some s) = s

-- The event's time is kept as a number in place of its RFC 3339 text.
abbrev pub pairing_complete : Str → ℕ → Str → Event
pairing_complete key now account_id = record {
  type = lit "pairing_complete";
  payload = Json.obj (
      field (lit "kakaoUserId") (Json.str (or_empty (kakao_user_of key))) (
        field (lit "pairedAt") (Json.num now) (field (lit "accountId") (Json.str account_id) end)));
}

abbrev pub session_channel : Str → Str
session_channel id = lit "session:" ++ id

unfoldable pub publish_to : Option Str → Str → Str → M (Unit {0})
publish_to none id key = fail (lit "session not paired")
publish_to (some account_id) id key = do
  now ← read_now
  ignored (publish (session_channel id) (pairing_complete key now account_id))
  publish account_id (pairing_complete key now account_id)

unfoldable pub publish_pairing_complete : Session → Str → M (Unit {0})
unfolding publish_to
publish_pairing_complete s key = publish_to s.account_id s.id key

abbrev pub pairing_expired : Str → Event
pairing_expired reason = record {
  type = lit "pairing_expired";
  payload = Json.obj (field (lit "reason") (Json.str reason) end);
}

abbrev pub expire_of_account : Option Str → Str → M (Unit {0})
expire_of_account none reason = pure tt
expire_of_account (some id) reason = publish id (pairing_expired reason)

abbrev pub expire_found : Str → Result (Option Session) → M (Unit {0})
expire_found reason (ok (some s)) = expire_of_account s.account_id reason
expire_found reason (ok none) = fail (lit "session not found")
expire_found reason (err _) = fail (lit "session not found")

unfoldable pub publish_pairing_expired : Str → Str → M (Unit {0})
publish_pairing_expired id reason w =
    let (r, w') = Sessions.find_by_id id w in expire_found reason r w'
