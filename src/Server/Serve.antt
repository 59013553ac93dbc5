-- ===== src/Server/Serve.antt =====
-- cmd/server/main.go: the routing table.
pub mod Guards
use kakao_relay.Prelude.{ℕ, ◌*◌, ◌/◌, Str, Bool, Option, none, some, List, [], lit}
use kakao_relay.Model.{Account, Session}
use kakao_relay.World.{World}
use kakao_relay.Runtime.{Runtime}
use kakao_relay.Middleware.IpRateLimit.{IpRateLimit}
use kakao_relay.Handler.Kakao as Kakao
use kakao_relay.Handler.Openclaw as Openclaw
use kakao_relay.Handler.Sessions as Sessions
use kakao_relay.Handler.Events.{Signal, Writer, serve_events}
use kakao_relay.Handler.Dashboard as Dashboard
use kakao_relay.Server.Routes.{
  Settings, Target, Request, Server, Answer, Handler, on_world, with_body_limit, with_auth,
  with_rate_limit, with_ip_limit, with_signature,
}

-- `NewIPRateLimitMiddleware` of the two session routes.
abbrev pub session_create_limit : IpRateLimit
session_create_limit = record { limit = 10; window = 5 * 60; prefix = lit "session_create" }

abbrev pub session_status_limit : IpRateLimit
session_status_limit = record { limit = 30; window = 60; prefix = lit "session_status" }

abbrev pub empty_writer : Writer
empty_writer = record { written = []; faults = [] }

abbrev pub streamed : Option (Writer × World) → Handler
streamed none s = (Answer.stream none, s)
streamed (some (out, w)) s = (Answer.stream (some out), record s { world = w })

-- `eventsHandler.ServeHTTP` for the session and account of the context.
unfoldable pub serve_stream : List Signal → Session → Option Account → Handler
serve_stream signals session account s =
    streamed (serve_events account (some session) signals empty_writer s.world) s

-- The route's own middlewares and handler, for the body that can be read.
unfoldable pub route : Runtime → Settings → Request → List ℕ × Bool → Target → Handler
unfolding serve_stream
route rt cfg req body Target.root = λ s. (Answer.redirect (lit "/dashboard/"), s)
route rt cfg req body Target.health = λ s. (Answer.healthy (s.world.now / 1_000_000), s)
route rt cfg req body Target.webhook =
    with_signature rt cfg req body
      (on_world Answer.webhook_answer (Kakao.webhook rt cfg.callback_ttl (cfg.decode_webhook body)))
route rt cfg req body (Target.events signals) =
    with_auth rt req
      λ session account. with_rate_limit account (serve_stream signals session account)
route rt cfg req body Target.reply = with_auth rt req λ session account.
    with_rate_limit account
      (on_world Answer.reply_answer (Openclaw.reply rt account (cfg.decode_reply body)))
route rt cfg req body Target.session_create =
    with_ip_limit cfg session_create_limit req (on_world Answer.created (Sessions.handle_create rt))
route rt cfg req body (Target.session_status token) =
    with_ip_limit cfg session_status_limit req
      (on_world Answer.session_answer (Sessions.handle_status rt token))
route rt cfg req body Target.dashboard_index =
    λ s. (Answer.index (Dashboard.serve_index cfg.dashboard_html), s)
route rt cfg req body Target.dashboard_overview =
    λ s. on_world Answer.overview_page (Dashboard.overview s.broker) s
route rt cfg req body Target.dashboard_accounts =
    on_world Answer.accounts_page (Dashboard.list_accounts rt)
route rt cfg req body (Target.account_conversations id) =
    on_world Answer.conversations_page (Dashboard.account_conversations id)
route rt cfg req body (Target.account_messages id type limit offset) =
    on_world Answer.messages_page (Dashboard.account_messages id type limit offset)
route rt cfg req body (Target.account_stats id) =
    λ s. on_world Answer.stats_page (Dashboard.account_stats rt s.broker id) s
route rt cfg req body (Target.account_failed_messages id) =
    on_world Answer.failed_page (Dashboard.account_failed_messages id)
route rt cfg req body (Target.regenerate_token id) =
    on_world Answer.token_page (Dashboard.regenerate_token rt id)
route rt cfg req body (Target.delete_account id) =
    on_world Answer.done_page (Dashboard.delete_account id)
route rt cfg req body (Target.delete_conversation id conversation_id) =
    on_world Answer.done_page (Dashboard.delete_conversation conversation_id)
route rt cfg req body (Target.dashboard_sessions limit) =
    on_world Answer.sessions_page (Dashboard.list_sessions limit)
route rt cfg req body Target.dashboard_session_create =
    on_world Answer.created_page (Dashboard.create_session rt)
route rt cfg req body (Target.disconnect_session id) =
    on_world Answer.done_page (Dashboard.disconnect_session id)
route rt cfg req body (Target.delete_session id) =
    on_world Answer.done_page (Dashboard.delete_session id)

-- A request, from the body limit to the answer.
unfoldable pub serve : Runtime → Settings → Request → Handler
unfolding route
serve rt cfg req = with_body_limit req λ body. route rt cfg req body req.target
