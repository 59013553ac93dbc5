-- ===== src/Handler/Dashboard.antt =====
-- internal/handler/dashboard.go
pub mod Counts
use kakao_relay.Prelude.{
  ℕ, Str, str_eq, not, ◌&&◌, Option, none, some, List, [], ◌∷◌, lit, ltb, leb, if◌then◌else◌,
  length, count_where,
}
use kakao_relay.Model.{
  ℤ, pos, negsuc, Account, ConversationMapping, InboundMessage, OutboundMessage, Session,
  is_pending_pairing, is_paired_session, is_paired, is_failed,
}
use kakao_relay.World.{World, Result, ok, err, M, pure, generate_token, ◌>>=◌}
use kakao_relay.Runtime.{Runtime, hash_token}
use kakao_relay.Broker.Subscribers.{Broker, client_count, total_clients}
use kakao_relay.Repository.Query.{select_context}
use kakao_relay.Repository.Accounts
use kakao_relay.Repository.Conversations
use kakao_relay.Repository.Inbound
use kakao_relay.Repository.Outbound
use kakao_relay.Repository.Sessions
use kakao_relay.Service.Message.{QuickStats, get_quick_stats}
use kakao_relay.Service.Session as SessionService
use kakao_relay.Service.Session.{CreateSessionResult}

-- A JSON answer, or the status of an error.
pub data Page (A : Type 0) : Type 0 where
  page : A → Page A
  failed : ℕ → Page A

abbrev pub page_of : {A : Type 0} → Result A → Page A
page_of (ok a) = page a
page_of (err _) = failed 500

abbrev pub served : {A : Type 0} → M A → World → Page A × World
served m w = let (r, w') = m w in (page_of r, w')

-- `repository.DashboardOverview` (internal/repository/dashboard.go)
pub record Overview : Type 0 where
  pub account_count : ℕ
  pub session_pending : ℕ
  pub session_paired : ℕ
  pub session_total : ℕ
  pub conversation_paired : ℕ
  pub conversation_unpaired : ℕ
  pub inbound_total : ℕ
  pub outbound_total : ℕ
  pub outbound_failed : ℕ

-- `GetOverviewStats`
unfoldable pub get_overview_stats : M Overview
unfolding select_context
get_overview_stats = select_context λ w. record {
  account_count = length w.db.accounts;
  session_pending =
      count_where (λ (s : Session). is_pending_pairing s.status && ltb w.now s.expires_at)
        w.db.sessions;
  session_paired = count_where (λ (s : Session). is_paired_session s.status) w.db.sessions;
  session_total = length w.db.sessions;
  conversation_paired =
      count_where (λ (c : ConversationMapping). is_paired c.state) w.db.conversations;
  conversation_unpaired =
      count_where (λ (c : ConversationMapping). not (is_paired c.state)) w.db.conversations;
  inbound_total = length w.db.inbound;
  outbound_total = length w.db.outbound;
  outbound_failed = count_where (λ (m : OutboundMessage). is_failed m.status) w.db.outbound;
}

-- `Overview`, with the number of SSE clients of this server.
unfoldable pub overview : Broker → World → Page (Overview × ℕ) × World
overview b = served (get_overview_stats >>= λ s. pure (s, total_clients b))

-- What `strconv.Atoi` makes of a query parameter: `none` for "" and for what is no number.
abbrev pub Parameter : Type 0
Parameter = Option ℤ

-- A limit from 1 to 100 replaces the default.
unfoldable pub limit_or : ℕ → Parameter → ℕ
limit_or d none = d
limit_or d (some (negsuc n)) = d
limit_or d (some (pos n)) = if ltb 0 n && leb n 100 then n else d

unfoldable pub offset_of : Parameter → ℕ
offset_of none = 0
offset_of (some (negsuc n)) = 0
offset_of (some (pos n)) = n

-- `parsePagination`
unfoldable pub parse_pagination : Parameter → Parameter → ℕ × ℕ
unfolding limit_or offset_of
parse_pagination limit offset = (limit_or 20 limit, offset_of offset)

-- The accounts, each with its statistics if they could be read.
abbrev pub stats_option : Result QuickStats → Option QuickStats
stats_option (ok s) = some s
stats_option (err _) = none

unfoldable pub with_stats :
    Runtime → List Account → World → List (Account × Option QuickStats) × World
with_stats rt [] w = ([], w)
with_stats rt (a ∷ rest) w =
    let (r, w') = get_quick_stats rt a.id w in
    let (entries, w'') = with_stats rt rest w' in ((a, stats_option r) ∷ entries, w'')

unfoldable pub list_found :
    Runtime → Result (List Account) × World → Page (List (Account × Option QuickStats)) × World
unfolding with_stats
list_found rt (err _, w) = (failed 500, w)
list_found rt (ok accounts, w) = let (entries, w') = with_stats rt accounts w in (page entries, w')

-- `ListAccounts`
unfoldable pub list_accounts : Runtime → World → Page (List (Account × Option QuickStats)) × World
unfolding list_found
list_accounts rt w = list_found rt (Accounts.find_all 100 0 w)

-- `AccountConversations`
unfoldable pub account_conversations : Str → World → Page (List ConversationMapping) × World
account_conversations id = served (Conversations.find_by_account_id id)

-- `AccountMessages`
pub data Messages : Type 0 where
  outbound : List OutboundMessage → Messages
  inbound : List InboundMessage → Messages

unfoldable pub account_messages : Str → Str → Parameter → Parameter → World → Page Messages × World
unfolding parse_pagination
account_messages id type limit offset =
    let (n, m) = parse_pagination limit offset in
    if str_eq type (lit "outbound")
    then served (Outbound.find_by_account_id id n m >>= λ ms. pure (outbound ms))
    else served (Inbound.find_by_account_id id n m >>= λ ms. pure (inbound ms))

-- `AccountStats`: the statistics, the number of conversations and of SSE clients.
unfoldable pub account_stats : Runtime → Broker → Str → World → Page (QuickStats × ℕ × ℕ) × World
account_stats rt b id = served (
    get_quick_stats rt id >>= λ s.
    Conversations.find_by_account_id id >>= λ cs. pure (s, length cs, client_count id b))

-- `AccountFailedMessages`
unfoldable pub account_failed_messages : Str → World → Page (List OutboundMessage) × World
account_failed_messages id = served (Outbound.find_recent_failed_by_account_id id 50)

-- `ListSessions`
unfoldable pub list_sessions : Parameter → World → Page (List Session) × World
unfolding limit_or
list_sessions limit = served (Sessions.find_recent (limit_or 50 limit))

-- `CreateSession`
unfoldable pub create_session : Runtime → World → Page CreateSessionResult × World
create_session rt = served (SessionService.create_session rt)

-- `ServeIndex`: the content type, and the embedded page.
unfoldable pub serve_index : Str → Str × Str
serve_index html = (lit "text/html; charset=utf-8", html)

-- `RegenerateToken`: the answer does not depend on whether the account exists.
unfoldable pub regenerate_token : Runtime → Str → World → Page Str × World
regenerate_token rt id =
    served (
      generate_token >>= λ token.
      Accounts.update_token id (hash_token rt token) >>= λ _. pure token)

-- `DeleteAccount`, `DisconnectSession`, `DeleteSession` and `DeleteConversation`
unfoldable pub delete_account : Str → World → Page (Unit {0}) × World
delete_account id = served (Accounts.delete id)

unfoldable pub disconnect_session : Str → World → Page (Unit {0}) × World
disconnect_session id = served (SessionService.disconnect id)

unfoldable pub delete_session : Str → World → Page (Unit {0}) × World
delete_session id = served (SessionService.delete id)

unfoldable pub delete_conversation : Str → World → Page (Unit {0}) × World
delete_conversation id = served (Conversations.delete id)
