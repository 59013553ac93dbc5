-- ===== src/Tests/Server.antt =====
-- Examples of the server: guards, start, reachable states, the session handshake, and the helpers.
use kakao_relay.Prelude.{
  ℕ, ◌+◌, ◌≤◌, ◌*◌, ◌/◌, Str, Bool, true, false, Option, none, some, List, [], ◌∷◌, ◌++◌, map, lit,
  ◌≡◌, refl, ◌↔◌, arith, to_upper, trim_space, drop, ◌%◌, ap, subst, sym,
}
use kakao_relay.Model.{ℤ, Json, pending_pairing, minute, second}
use kakao_relay.World.{World, Result, ok, err, hex_encode}
use kakao_relay.Runtime.{hash_token}
use kakao_relay.Config.{Config, callback_ttl}
use kakao_relay.Config.Durations.{callback_ttl_iff}
use kakao_relay.Errors.{app, other, write_error, get_code, unexpected, unauthorized_error}
use kakao_relay.Errors.Answers.{Shows, in_contexts, write_error-Shows}
use kakao_relay.Util.Base64.{IsBytes, hex_decode}
use kakao_relay.Util.Encryption.{Gcm, encrypt, decrypt}
use kakao_relay.Util.Encryption.RoundTrip.{IsGcm, decrypt-encrypt}
use kakao_relay.Middleware.RedisRateLimit.{SortedSet, empty_set, check}
use kakao_relay.Service.RateLimiter.{check_limit}
use kakao_relay.Service.RateLimiter.Windows.{check_limit-eq-check}
use kakao_relay.Middleware.IpRateLimit.{ip_handler}
use kakao_relay.Middleware.IpRateLimit.Retry.{WaitsUpTo, ip_handler-Waits}
use kakao_relay.Repository.Consistent.{Consistent}
use kakao_relay.Repository.WellFormed.{WellFormed}
use kakao_relay.Repository.Sessions
use kakao_relay.Service.Session.{
  CreateSessionResult, create_session, verify_pairing_code, success, get_status,
}
use kakao_relay.Broker.Subscribers.{new_broker}
use kakao_relay.Server.Routes.{Settings, Target, Request, Server}
use kakao_relay.Server.Serve.{serve}
use kakao_relay.Server.Serve.Guards.{NoSession, Barred, Refuses, serve-Refuses}
use kakao_relay.Server.Startup.{Environment, stopped, signalled, main}
use kakao_relay.Server.Startup.Order.{Orderly, Succeeds, main-Orderly}
use kakao_relay.Server.Reachable.{
  empty_database, Reachable, start, then_step, request, Reachable-WellFormed, Reachable-Consistent,
}
use kakao_relay.Service.Session.Creation.{Created, create_session-Created, get_status-handshake}
use kakao_relay.Service.Session.Polling.{paired_answer}
use kakao_relay.Tests.Data.{runtime, world}

abbrev settings : Settings
settings = record {
  kakao_signature_secret = lit "secret";
  callback_ttl = minute;
  dashboard_html = [];
  decode_webhook = λ b. some kakao_relay.Tests.Data.request;
  decode_reply = λ b. some (record { message_id = lit "m1"; response = some Json.null });
  parse_json = λ b. some Json.null;
  split_host = λ s. none;
}

abbrev request_to : Target → Request
request_to target = record {
  target = target;
  content_length = none;
  body = 1 ∷ [];
  auth = record { query_token = lit "u"; authorization = [] };
  signature = lit "00";
  remote_addr = lit "10.0.0.1";
}

abbrev server : Server
server = record {
  world = world;
  sets = λ k. empty_set;
  script_calls = some 7 ∷ [];
  broker = new_broker;
}

no_session : Barred runtime settings (request_to Target.reply) Target.reply server
unfolding Barred NoSession kakao_relay.Prelude.find_where kakao_relay.Prelude.str_eq hash_token
    hex_encode kakao_relay.Middleware.Auth.extract_token
no_session = kakao_relay.Prelude.inr refl

serve-Refuses_example : Refuses server (serve runtime settings (request_to Target.reply) server)
serve-Refuses_example = serve-Refuses runtime settings (request_to Target.reply) server no_session

write_error-Shows_example :
    Shows
      (unauthorized_error (lit "no"))
      (write_error (in_contexts (lit "a" ∷ lit "b" ∷ []) (app (unauthorized_error (lit "no")))))
    × Shows unexpected (write_error (in_contexts (lit "a" ∷ lit "b" ∷ []) (other (lit "secret"))))
    × ((write_error (other (lit "x"))).body.code ≡ get_code (other (lit "x")))
write_error-Shows_example =
    write_error-Shows (lit "a" ∷ lit "b" ∷ []) (unauthorized_error (lit "no")) (lit "secret")
      (other (lit "x"))

-- A cipher that puts one byte in front.
abbrev gcm : Gcm
gcm = record {
  seal = λ key nonce text. 7 ∷ map (λ c. c % 256) text;
  open_sealed = λ key nonce text. some (drop 1 text);
}

-- The texts of the laws are bytes: `c % 256` leaves them alone.
same_bytes : (bs : List ℕ) → IsBytes bs → map (λ c. c % 256) bs ≡ bs
unfolding IsBytes
same_bytes [] h = refl
same_bytes (b ∷ bs) (p, h) = let e : b % 256 ≡ b = omega arith in rw (e, same_bytes bs h) refl

is_gcm : IsGcm gcm
unfolding IsBytes
is_gcm = record {
  opens = λ key nonce text k n h. ap some (same_bytes text h);
  bytes = λ key nonce text k n h. (omega arith, subst IsBytes (sym (same_bytes text h)) h);
}

-- A key of 64 hex digits.
abbrev key_text : Str
key_text = lit "000102030405060708090a0b0c0d0e0f101112131415161718191A1B1C1D1E1F"

abbrev key_bytes : List ℕ
key_bytes =
    0 ∷ 1 ∷ 2 ∷ 3 ∷ 4 ∷ 5 ∷ 6 ∷ 7 ∷ 8 ∷ 9 ∷ 10 ∷ 11 ∷ 12 ∷ 13 ∷ 14 ∷ 15 ∷ 16 ∷ 17 ∷ 18 ∷ 19 ∷ 20
    ∷ 21 ∷ 22 ∷ 23 ∷ 24 ∷ 25 ∷ 26 ∷ 27 ∷ 28 ∷ 29 ∷ 30 ∷ 31 ∷ []

abbrev nonce_bytes : List ℕ
nonce_bytes = 200 ∷ 201 ∷ 202 ∷ 203 ∷ 204 ∷ 205 ∷ 206 ∷ 207 ∷ 208 ∷ 209 ∷ 210 ∷ 211 ∷ []

key_decodes : hex_decode key_text ≡ some key_bytes
unfolding hex_decode
key_decodes = refl

abbrev drawing : World
drawing = record world { random = some nonce_bytes ∷ [] }

nonce_IsBytes : IsBytes nonce_bytes
unfolding IsBytes
nonce_IsBytes = omega arith

text_IsBytes : IsBytes (lit "hi")
unfolding IsBytes
text_IsBytes = omega arith

decrypt-encrypt_example :
    (encoded : Str) × ((encrypt gcm key_text (lit "hi") drawing).0 ≡ ok encoded)
    × (decrypt gcm key_text encoded ≡ ok (lit "hi"))
decrypt-encrypt_example =
    decrypt-encrypt gcm is_gcm key_text key_bytes (lit "hi") nonce_bytes drawing key_decodes refl
      refl (omega arith) nonce_IsBytes text_IsBytes

abbrev config : Config
config = record {
  port = ℤ.pos 8080;
  database_url = [];
  redis_url = [];
  kakao_signature_secret = [];
  encryption_key = [];
  queue_ttl_seconds = ℤ.pos 900;
  callback_ttl_seconds = ℤ.pos 55;
  log_level = lit "info";
}

callback_ttl_iff_example : (callback_ttl config ≡ ℤ.pos (55 * second)) ↔ (55 ≤ 9223372036)
callback_ttl_iff_example = callback_ttl_iff config 55 refl

-- The window is full: one earlier call in the same second, with a limit of one.
abbrev full_set : SortedSet
full_set = record { members = (0, 3) ∷ []; expires_at = 400 }

ip_handler-Waits_example :
    WaitsUpTo 301
      (ip_handler (record { limit = 1; window = 300; prefix = lit "p" }) 10 (some 4) full_set).0
ip_handler-Waits_example =
    ip_handler-Waits (record { limit = 1; window = 300; prefix = lit "p" }) 10 (some 4) full_set
      (omega arith) (omega arith)

check_limit-eq-check_example :
    ((check_limit 60 1 10 (some 4) full_set).0.0
      ≡ (check 60 1 (10 / second) (some 4) full_set).0.allowed)
    × ((check_limit 60 1 10 (some 4) full_set).1 ≡ (check 60 1 (10 / second) (some 4) full_set).1)
check_limit-eq-check_example = check_limit-eq-check 60 1 10 (some 4) full_set

abbrev environment : Environment
environment = record {
  parsed = ok config;
  k_service = lit "relay";
  fly_app_name = [];
  connected = ok tt;
  pinged = err (lit "no route");
  migrated = ok tt;
  redis = ok tt;
  waiting = signalled;
  shut_down = ok tt;
}

main-Orderly_example :
    Orderly (main environment).exit (main environment).actions
    × (((main environment).exit ≡ stopped) ↔ Succeeds environment)
main-Orderly_example = main-Orderly environment

-- An empty server on which a session is created.
abbrev empty_server : Server
empty_server = record server { world = record world { db = empty_database } }

abbrev busy_server : Server
busy_server = (serve runtime settings (request_to Target.session_create) empty_server).1

reached : Reachable runtime settings busy_server
reached =
    then_step empty_server busy_server (start empty_server refl)
      (request (request_to Target.session_create) empty_server busy_server refl)

Reachable-WellFormed_example : WellFormed busy_server.world.db
Reachable-WellFormed_example = Reachable-WellFormed runtime settings busy_server reached

Reachable-Consistent_example : Consistent busy_server.world.db
Reachable-Consistent_example = Reachable-Consistent runtime settings busy_server reached

abbrev after_creation : World
after_creation = (create_session runtime empty_server.world).1

abbrev creation : CreateSessionResult
creation = record {
  session_token = lit "0102";
  pairing_code = lit "ABAA-AAAA";
  expires_in = 300;
  status = pending_pairing;
  expires_at = 10 + 5 * minute;
}

creates : create_session runtime empty_server.world ≡ (ok creation, after_creation)
unfolding create_session Sessions.create kakao_relay.World.generate_token
    kakao_relay.Service.Session.generate_session_pairing_code kakao_relay.Prelude.find_where
creates = refl

create_session-Created_example : Created runtime creation 10 empty_database after_creation.db
create_session-Created_example =
    create_session-Created runtime empty_server.world after_creation creation creates

-- The chat sends the code in lower case.
abbrev pairing_world : World
pairing_world = record after_creation {
  now = 20;
  random = some (9 ∷ []) ∷ [];
  uuids = lit "a1" ∷ [];
}

abbrev after_pairing : World
after_pairing = (verify_pairing_code runtime (lit " abaa-aaaa") (lit "ch:u1") pairing_world).1

normalizes : to_upper runtime.upper_table (trim_space (lit " abaa-aaaa")) ≡ creation.pairing_code
unfolding to_upper trim_space
normalizes = refl

pairs :
    verify_pairing_code runtime (lit " abaa-aaaa") (lit "ch:u1") pairing_world
    ≡ (success (lit "a9") (lit "a1") (lit "09"), after_pairing)
unfolding create_session Sessions.create verify_pairing_code Sessions.find_by_pairing_code
    kakao_relay.World.generate_token kakao_relay.Service.Session.generate_session_pairing_code
    kakao_relay.Prelude.find_where kakao_relay.Prelude.str_eq to_upper trim_space
    kakao_relay.Database.with_tx kakao_relay.Repository.Accounts.create Sessions.mark_paired
    Sessions.update_metadata
pairs = refl

get_status-handshake_example :
    (get_status (hash_token runtime (lit "0102")) after_pairing).0
    ≡ ok (some (paired_answer (lit "ch:u1") 20 (lit "a1") (lit "09")))
unfolding create_session Sessions.create verify_pairing_code Sessions.find_by_pairing_code
    kakao_relay.World.generate_token kakao_relay.Service.Session.generate_session_pairing_code
    kakao_relay.Prelude.find_where kakao_relay.Prelude.str_eq to_upper trim_space
    kakao_relay.Database.with_tx kakao_relay.Repository.Accounts.create Sessions.mark_paired
    Sessions.update_metadata
get_status-handshake_example =
    get_status-handshake runtime empty_server.world after_creation pairing_world after_pairing
      after_pairing creation (lit " abaa-aaaa") (lit "ch:u1") (lit "a9") (lit "a1") (lit "09")
      creates normalizes refl (omega arith) pairs refl refl
