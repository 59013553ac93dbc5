-- ===== src/Tests/Data.antt =====
-- The rows, worlds and requests of the examples.
use kakao_relay.Prelude.{◌*◌, ◌%◌, Str, none, some, [], ◌∷◌, map, lit}
use kakao_relay.Model.{
  ℤ, Json, Account, Session, ConversationMapping, InboundMessage, PairingState, SessionStatus,
  InboundMessageStatus, end, minute,
}
use kakao_relay.World.{Database, World, answered}
use kakao_relay.Runtime.{Runtime}
use kakao_relay.Handler.Types.{KakaoWebhookRequest}

-- A runtime whose hash is the text itself and whose URLs are those of one host.
abbrev pub runtime : Runtime
runtime = record {
  parse_url = λ s. some (record { scheme = lit "https"; hostname = lit "bot.kakao.com" });
  sha256 = λ s. map (λ c. c % 256) s;
  hmac_sha256 = λ secret body. map (λ c. c % 256) body;
  upper_table = λ c. c;
  lower_table = λ c. c;
  format_time = λ t. [];
  day_start = λ t. 0;
}

abbrev pub alice : Account
alice = record {
  id = lit "alice";
  relay_token_hash = none;
  rate_limit_per_min = ℤ.pos 60;
  created_at = 1;
  updated_at = 1;
}

-- The hash of the token "t".
abbrev pub hash : Str
hash = lit "74"

abbrev pub waiting : Session
waiting = record {
  id = lit "s1";
  session_token_hash = hash;
  pairing_code = lit "AB-12";
  status = SessionStatus.pending_pairing;
  account_id = none;
  paired_conversation_key = none;
  metadata = none;
  expires_at = 5 * minute;
  paired_at = none;
  created_at = 1;
  updated_at = 1;
}

abbrev pub conversation : ConversationMapping
conversation = record {
  id = lit "c1";
  conversation_key = lit "ch:u1";
  kakao_channel_id = lit "ch";
  plusfriend_user_key = lit "u1";
  account_id = some (lit "alice");
  state = PairingState.paired;
  last_callback_url = none;
  last_callback_expires_at = none;
  first_seen_at = 1;
  last_seen_at = 1;
  paired_at = some 1;
}

abbrev pub hello : InboundMessage
hello = record {
  id = lit "m1";
  account_id = lit "alice";
  conversation_key = lit "ch:u1";
  kakao_payload = Json.null;
  normalized_message = none;
  callback_url = some (lit "https://bot.kakao.com/cb");
  callback_expires_at = some 1000;
  status = InboundMessageStatus.queued;
  source_event_id = none;
  created_at = 2;
  delivered_at = none;
  acked_at = none;
}

abbrev pub database : Database
database = record {
  accounts = alice ∷ [];
  sessions = waiting ∷ [];
  conversations = conversation ∷ [];
  inbound = hello ∷ [];
  outbound = [];
}

abbrev pub world : World
world = record {
  db = database;
  now = 10;
  db_faults = [];
  redis_faults = [];
  random = some (1 ∷ 2 ∷ []) ∷ [];
  draws = 0 ∷ 1 ∷ [];
  uuids = lit "a9" ∷ [];
  published = [];
  replies = answered 200 ∷ [];
  posted = [];
}

abbrev pub request : KakaoWebhookRequest
request = record {
  user_id = lit "u1";
  user_type = [];
  properties = none;
  utterance = lit "hi";
  callback_url = [];
  user_others = end;
  bot = some (lit "ch", []);
  others = end;
}
