-- ===== src/Server/Routes.antt =====
-- cmd/server/main.go: what a route is served with. A handler is a function on the state of the
-- server; a middleware wraps one. The chi router is third-party: it picks the route and its
-- parameters, so a request names its `Target`. Its RealIP, RequestID, Recoverer and Timeout are left
-- out: `remote_addr` is the address that RealIP has left, and a context that ends makes the calls
-- fail that are listed in the world's faults.
use kakao_relay.Prelude.{ℕ, Str, str_eq, Bool, true, false, Option, none, some, List, if◌then◌else◌}
use kakao_relay.Model.{ℤ, Json, Account, ConversationMapping, OutboundMessage, Session}
use kakao_relay.World.{World, next}
use kakao_relay.Runtime.{Runtime}
use kakao_relay.Broker.Subscribers.{Broker}
use kakao_relay.Service.Message.{QuickStats}
use kakao_relay.Service.RateLimiter.{full_key}
use kakao_relay.Service.Session.{CreateSessionResult, SessionStatusResult}
use kakao_relay.Middleware.Auth.{AuthRequest, AuthOutcome, authenticate}
use kakao_relay.Middleware.Auth
use kakao_relay.Middleware.BodyLimit.{limit_body, new_body_limit}
use kakao_relay.Middleware.IpRateLimit.{IpRateLimit, IpGate, ip_of, ip_key, ip_handler}
use kakao_relay.Middleware.IpRateLimit
use kakao_relay.Middleware.RateLimit.{Gate, unlimited, passed, too_many_requests}
use kakao_relay.Middleware.RedisRateLimit
use kakao_relay.Middleware.RedisRateLimit.{SortedSet}
use kakao_relay.Middleware.Signature.{SignedRequest, SignatureOutcome, check_signature}
use kakao_relay.Middleware.Signature
use kakao_relay.Handler.Types.{KakaoWebhookRequest}
use kakao_relay.Handler.Kakao.{WebhookAnswer}
use kakao_relay.Handler.Openclaw.{ReplyRequest, ReplyOutcome}
use kakao_relay.Handler.Sessions.{SessionAnswer}
use kakao_relay.Handler.Events.{Signal, Writer}
use kakao_relay.Handler.Dashboard.{Page, Parameter, Overview, Messages}

-- The settings that the handlers take, and what the standard library makes of a body or an address.
pub record Settings : Type 0 where
  pub kakao_signature_secret : Str
  pub callback_ttl : ℕ
  pub dashboard_html : Str
  pub decode_webhook : List ℕ × Bool → Option KakaoWebhookRequest
  pub decode_reply : List ℕ × Bool → Option ReplyRequest
  pub parse_json : List ℕ → Option Json
  pub split_host : Str → Option Str

-- The registered routes with their parameters.
pub data Target : Type 0 where
  root health : Target
  webhook : Target
  events : List Signal → Target
  reply : Target
  session_create : Target
  session_status : (token : Str) → Target
  dashboard_index dashboard_overview dashboard_accounts : Target
  account_conversations account_stats account_failed_messages : (id : Str) → Target
  account_messages : (id type : Str) (limit offset : Parameter) → Target
  regenerate_token delete_account : (id : Str) → Target
  delete_conversation : (id conversation_id : Str) → Target
  dashboard_sessions : (limit : Parameter) → Target
  dashboard_session_create : Target
  disconnect_session delete_session : (id : Str) → Target

pub record Request : Type 0 where
  pub target : Target
  pub content_length : Option ℕ
  pub body : List ℕ
  pub auth : AuthRequest
  pub signature : Str
  pub remote_addr : Str

-- The server: the world of the handlers, the sorted sets of Redis by their keys, how the coming calls
-- of the limiters' scripts end, and the subscribers.
pub record Server : Type 0 where
  pub world : World
  pub sets : Str → SortedSet
  pub script_calls : List (Option ℕ)
  pub broker : Broker

-- What is written: a bare status, or the answer of a handler.
pub data Answer : Type 0 where
  status : ℕ → Answer
  redirect : Str → Answer
  healthy : (timestamp : ℕ) → Answer
  limited : Gate → Answer
  ip_limited : (retry_after : ℤ) → Answer
  webhook_answer : WebhookAnswer → Answer
  reply_answer : ReplyOutcome → Answer
  stream : Option Writer → Answer
  created : SessionAnswer CreateSessionResult → Answer
  session_answer : SessionAnswer SessionStatusResult → Answer
  index : Str × Str → Answer
  overview_page : Page (Overview × ℕ) → Answer
  accounts_page : Page (List (Account × Option QuickStats)) → Answer
  conversations_page : Page (List ConversationMapping) → Answer
  messages_page : Page Messages → Answer
  stats_page : Page (QuickStats × ℕ × ℕ) → Answer
  failed_page : Page (List OutboundMessage) → Answer
  sessions_page : Page (List Session) → Answer
  created_page : Page CreateSessionResult → Answer
  token_page : Page Str → Answer
  done_page : Page (Unit {0}) → Answer

abbrev pub Handler : Type 0
Handler = Server → Answer × Server

-- A handler that works on the world only.
abbrev pub on_world : {A : Type 0} → (A → Answer) → (World → A × World) → Handler
on_world f h s = let (a, w) = h s.world in (f a, record s { world = w })

-- `BodyLimitMiddleware`: the next handler gets the body that can be read.
abbrev pub limited_body : Option (List ℕ × Bool) → (List ℕ × Bool → Handler) → Handler
limited_body none h s = (status 413, s)
limited_body (some body) h s = h body s

unfoldable pub with_body_limit : Request → (List ℕ × Bool → Handler) → Handler
with_body_limit req h =
    limited_body (limit_body (new_body_limit (ℤ.pos 0)) req.content_length req.body) h

-- `AuthMiddleware`
abbrev pub authenticated : AuthOutcome × World → (Session → Option Account → Handler) → Handler
authenticated (Auth.refused code, w) h s = (status code, record s { world = w })
authenticated (Auth.proceed session account, w) h s = h session account (record s { world = w })

unfoldable pub with_auth : Runtime → Request → (Session → Option Account → Handler) → Handler
with_auth rt req h s = authenticated (authenticate rt req.auth s.world) h s

-- One call of a limiter's script on its key: the set is stored, and the schedule moves on.
abbrev pub put_set : Str → SortedSet → (Str → SortedSet) → Str → SortedSet
put_set key set sets k = if str_eq k key then set else sets k

abbrev pub scripted : Str → SortedSet → Server → Server
scripted key set s = record s {
  sets = put_set key set s.sets;
  script_calls = (next none s.script_calls).1;
}

abbrev pub gated : Gate → Handler → Handler
gated unlimited h s = h s
gated (passed limit v) h s = h s
gated (too_many_requests limit v) h s = (limited (too_many_requests limit v), s)

-- `RedisRateLimitMiddleware`: without an account there is no limit and no call.
unfoldable pub with_rate_limit : Option Account → Handler → Handler
with_rate_limit none h s = h s
with_rate_limit (some a) h s =
    let key = full_key a.id in
    let (g, set) =
      RedisRateLimit.handler (some a) s.world.now (next none s.script_calls).0 (s.sets key) in
    gated g h (scripted key set s)

abbrev pub ip_gated : IpGate → Handler → Handler
ip_gated IpRateLimit.passed h s = h s
ip_gated (IpRateLimit.too_many_requests k) h s = (ip_limited k, s)

-- `IPRateLimitMiddleware`
unfoldable pub with_ip_limit : Settings → IpRateLimit → Request → Handler → Handler
with_ip_limit cfg m req h s =
    let key = full_key (ip_key m.prefix (ip_of cfg.split_host req.remote_addr)) in
    let (g, set) = ip_handler m s.world.now (next none s.script_calls).0 (s.sets key) in
    ip_gated g h (scripted key set s)

-- `KakaoSignatureMiddleware` on the body that can be read: a cut one fails to be read.
abbrev pub signed_request : Settings → Request → List ℕ × Bool → SignedRequest
signed_request cfg req (body, true) = record {
  signature = req.signature;
  body = none;
  parsed = none;
}
signed_request cfg req (body, false) = record {
  signature = req.signature;
  body = some body;
  parsed = cfg.parse_json body;
}

abbrev pub checked : SignatureOutcome → Handler → Handler
checked (Signature.refused code) h s = (status code, s)
checked (Signature.proceed payload) h s = h s

unfoldable pub with_signature : Runtime → Settings → Request → List ℕ × Bool → Handler → Handler
with_signature rt cfg req body h =
    checked (check_signature rt cfg.kakao_signature_secret (signed_request cfg req body)) h
