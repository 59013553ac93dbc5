-- ===== src/Server/Invariants/Serving.antt =====
-- cmd/server/main.go: what a request keeps, whatever its route.
use kakao_relay.Prelude.{
  ℕ, Str, Bool, true, false, sym, subst, Option, none, some, List, is_empty, inl, inr, Bool-cases,
}
use kakao_relay.Model.{Account, Session, is_paired_session}
use kakao_relay.World.{Database, World, Result, ok, err}
use kakao_relay.Runtime.{Runtime, hash_token}
use kakao_relay.Repository.Accounts
use kakao_relay.Repository.Sessions
use kakao_relay.Repository.Statements.{KeptBy}
use kakao_relay.Repository.Statements.Calls.{Keeps-get_context}
use kakao_relay.Repository.Statements.Writes.{
  delete_account-Keeps, mark_disconnected-Keeps, delete_session-Keeps, delete_conversation-Keeps,
}
use kakao_relay.Middleware.Auth
use kakao_relay.Middleware.IpRateLimit
use kakao_relay.Middleware.IpRateLimit.{IpRateLimit, IpGate}
use kakao_relay.Middleware.RateLimit.{Gate, unlimited, passed, too_many_requests}
use kakao_relay.Middleware.Signature
use kakao_relay.Middleware.Signature.{SignatureOutcome}
use kakao_relay.Middleware.Auth.{
  AuthOutcome, AuthRequest, authenticate, with_session, find_account, extract_token,
}
use kakao_relay.Handler.Dashboard as Dashboard
use kakao_relay.Handler.Sessions.{handle_create, handle_status}
use kakao_relay.Server.Routes.{
  Settings, Target, Request, Server, Handler, with_body_limit, limited_body, with_auth,
  authenticated, with_rate_limit, gated, with_ip_limit, ip_gated, with_signature, checked,
}
use kakao_relay.Server.Serve.{route, serve, serve_stream, streamed, empty_writer}
use kakao_relay.Server.Invariants.Pairing.{create-Keeps, get_status-Keeps}
use kakao_relay.Server.Invariants.Chat.{webhook-keeps}
use kakao_relay.Server.Invariants.Endpoints.{reply-keeps, KeepsStream, serve_events-keeps}
use kakao_relay.Server.Invariants.Pages.{
  db-overview, db-list_accounts, db-account_conversations, db-account_messages, db-account_stats,
  db-failed_messages, db-list_sessions, regenerate_token-keeps,
}
use kakao_relay.Handler.Events.{Signal, Writer}
use kakao_relay.Service.Session as SessionService

module _ (P : Database → Type 0) where
  -- A handler that keeps the predicate.
  abbrev pub HandlerKeeps : Handler → Type 0
  HandlerKeeps h = (s : Server) → P s.world.db → P (h s).1.world.db

  find_account-keeps :
      (b : Bool) (o : Option Str) (w : World) → P w.db → P (find_account b o w).1.db
  unfolding find_account Accounts.find_by_id
  find_account-keeps true (some id) w p = (Keeps-get_context P _).keeps w p
  find_account-keeps true none w p = p
  find_account-keeps false o w p = p

  with_session-keeps :
      (r : Result (Option Session)) (w : World) → P w.db → P (with_session (r, w)).1.db
  unfolding with_session
  with_session-keeps (err e) w p = p
  with_session-keeps (ok none) w p = p
  with_session-keeps (ok (some s)) w p =
      find_account-keeps (is_paired_session s.status) s.account_id w p

  authenticate-keeps :
      (rt : Runtime) (req : AuthRequest) (w : World) → P w.db → P (authenticate rt req w).1.db
  unfolding authenticate Sessions.find_by_token_hash
  authenticate-keeps rt req w p = elim (Bool-cases (is_empty (extract_token req))) [
    | inl blank ↦ rw blank p
    | inr named ↦ rw named (with_session-keeps _ _ ((Keeps-get_context P _).keeps w p))
  ]

  authenticated-keeps :
      (o : AuthOutcome) (w : World) (h : Session → Option Account → Handler) (s : Server)
      → ((session : Session) (a : Option Account) → HandlerKeeps (h session a))
      → P w.db
      → P (authenticated (o, w) h s).1.world.db
  authenticated-keeps (Auth.refused code) w h s k p = p
  authenticated-keeps (Auth.proceed session a) w h s k p = k session a _ p

  with_auth-keeps :
      (rt : Runtime) (req : Request) (h : Session → Option Account → Handler)
      → ((session : Session) (a : Option Account) → HandlerKeeps (h session a))
      → HandlerKeeps (with_auth rt req h)
  unfolding with_auth
  with_auth-keeps rt req h k s p =
      authenticated-keeps _ _ h s k (authenticate-keeps rt req.auth s.world p)

  gated-keeps : (g : Gate) (h : Handler) → HandlerKeeps h → HandlerKeeps (gated g h)
  gated-keeps unlimited h k s p = k s p
  gated-keeps (passed limit v) h k s p = k s p
  gated-keeps (too_many_requests limit v) h k s p = p

  with_rate_limit-keeps :
      (a : Option Account) (h : Handler) → HandlerKeeps h → HandlerKeeps (with_rate_limit a h)
  unfolding with_rate_limit
  with_rate_limit-keeps none h k s p = k s p
  with_rate_limit-keeps (some a) h k s p = gated-keeps _ h k _ p

  ip_gated-keeps : (g : IpGate) (h : Handler) → HandlerKeeps h → HandlerKeeps (ip_gated g h)
  ip_gated-keeps IpRateLimit.passed h k s p = k s p
  ip_gated-keeps (IpRateLimit.too_many_requests n) h k s p = p

  with_ip_limit-keeps :
      (cfg : Settings) (m : IpRateLimit) (req : Request) (h : Handler)
      → HandlerKeeps h
      → HandlerKeeps (with_ip_limit cfg m req h)
  unfolding with_ip_limit
  with_ip_limit-keeps cfg m req h k s p = ip_gated-keeps _ h k _ p

  checked-keeps : (o : SignatureOutcome) (h : Handler) → HandlerKeeps h → HandlerKeeps (checked o h)
  checked-keeps (Signature.refused code) h k s p = p
  checked-keeps (Signature.proceed payload) h k s p = k s p

  limited-keeps :
      (o : Option (List ℕ × Bool)) (h : List ℕ × Bool → Handler)
      → ((body : List ℕ × Bool) → HandlerKeeps (h body))
      → HandlerKeeps (limited_body o h)
  limited-keeps none h k s p = p
  limited-keeps (some body) h k s p = k body s p

  streamed-keeps :
      (o : Option (Writer × World)) (s : Server)
      → KeepsStream P o
      → P s.world.db
      → P (streamed o s).1.world.db
  unfolding KeepsStream
  streamed-keeps none s k p = p
  streamed-keeps (some (out, w)) s k p = k

module _ (P : Database → Type 0) (law : KeptBy P) (rt : Runtime) (cfg : Settings) where
  serve_stream-keeps :
      (signals : List Signal) (session : Session) (a : Option Account)
      → HandlerKeeps P (serve_stream signals session a)
  unfolding serve_stream
  serve_stream-keeps signals session a s p =
      streamed-keeps P _ s
        (serve_events-keeps P law a (some session) signals empty_writer s.world p) p

  handle_status-keeps : (token : Str) (w : World) → P w.db → P (handle_status rt token w).1.db
  unfolding handle_status
  handle_status-keeps token w p = elim (Bool-cases (is_empty token)) [
    | inl blank ↦ rw blank p
    | inr named ↦ rw named ((get_status-Keeps P law rt (hash_token rt token)).keeps w p)
  ]

  route-keeps :
      (req : Request) (body : List ℕ × Bool) (t : Target) → HandlerKeeps P (route rt cfg req body t)
  unfolding route with_signature handle_create Dashboard.delete_account Dashboard.delete_session
      Dashboard.delete_conversation Dashboard.disconnect_session Dashboard.create_session
      SessionService.disconnect SessionService.delete
  route-keeps req body Target.root s p = p
  route-keeps req body Target.health s p = p
  route-keeps req body Target.webhook s p =
      checked-keeps P _ _
        (λ v q. webhook-keeps P law rt cfg.callback_ttl (cfg.decode_webhook body) v.world q) s p
  route-keeps req body (Target.events signals) s p =
      with_auth-keeps P rt req _
        (λ session a. with_rate_limit-keeps P a _ (serve_stream-keeps signals session a)) s p
  route-keeps req body Target.reply s p =
      with_auth-keeps P rt req _
        (λ session a.
          with_rate_limit-keeps P a _
            (λ v q. reply-keeps P law rt a (cfg.decode_reply body) v.world q))
        s p
  route-keeps req body Target.session_create s p =
      with_ip_limit-keeps P cfg _ req _ (λ v q. (create-Keeps P law rt).keeps v.world q) s p
  route-keeps req body (Target.session_status token) s p =
      with_ip_limit-keeps P cfg _ req _ (λ v q. handle_status-keeps token v.world q) s p
  route-keeps req body Target.dashboard_index s p = p
  route-keeps req body Target.dashboard_overview s p =
      subst P (sym (db-overview s.broker s.world)) p
  route-keeps req body Target.dashboard_accounts s p = subst P (sym (db-list_accounts rt s.world)) p
  route-keeps req body (Target.account_conversations id) s p =
      subst P (sym (db-account_conversations id s.world)) p
  route-keeps req body (Target.account_messages id type limit offset) s p =
      subst P (sym (db-account_messages id type limit offset s.world)) p
  route-keeps req body (Target.account_stats id) s p =
      subst P (sym (db-account_stats rt s.broker id s.world)) p
  route-keeps req body (Target.account_failed_messages id) s p =
      subst P (sym (db-failed_messages id s.world)) p
  route-keeps req body (Target.regenerate_token id) s p =
      regenerate_token-keeps P law rt id s.world p
  route-keeps req body (Target.delete_account id) s p =
      (delete_account-Keeps P law id).keeps s.world p
  route-keeps req body (Target.delete_conversation id conversation_id) s p =
      (delete_conversation-Keeps P law conversation_id).keeps s.world p
  route-keeps req body (Target.dashboard_sessions limit) s p =
      subst P (sym (db-list_sessions limit s.world)) p
  route-keeps req body Target.dashboard_session_create s p = (create-Keeps P law rt).keeps s.world p
  route-keeps req body (Target.disconnect_session id) s p =
      (mark_disconnected-Keeps P law id).keeps s.world p
  route-keeps req body (Target.delete_session id) s p =
      (delete_session-Keeps P law id).keeps s.world p

  -- Every request keeps what the statements keep.
  pub serve-keeps : (req : Request) → HandlerKeeps P (serve rt cfg req)
  unfolding serve with_body_limit
  serve-keeps req s p = limited-keeps P _ _ (λ body. route-keeps req body req.target) s p
