-- ===== src/Server/Invariants/Pages.antt =====
-- internal/handler/dashboard.go: what the dashboard keeps; its pages only read.
use kakao_relay.Prelude.{ℕ, Str, ◌≡◌, refl, ◌∙◌, List, [], ◌∷◌, arith}
use kakao_relay.Model.{Account}
use kakao_relay.World.{Database, World, Result, ok, err, pure, ◌>>=◌, generate_token}
use kakao_relay.Runtime.{Runtime, hash_token}
use kakao_relay.Broker.Subscribers.{Broker}
use kakao_relay.Repository.Accounts
use kakao_relay.Repository.Conversations
use kakao_relay.Repository.Inbound
use kakao_relay.Repository.Outbound
use kakao_relay.Repository.Sessions
use kakao_relay.Repository.Statements.{KeptBy}
use kakao_relay.Repository.Statements.Calls.{Keeps-bind, Keeps-generate_token, Keeps-pure}
use kakao_relay.Repository.Statements.Writes.{update_token-Keeps}
use kakao_relay.Service.Message.{get_quick_stats}
use kakao_relay.Handler.Dashboard.{
  Parameter, overview, get_overview_stats, with_stats, list_found, list_accounts,
  account_conversations, account_messages, account_stats, account_failed_messages, list_sessions,
  regenerate_token,
}
use kakao_relay.Server.Invariants.Chat.{db-quick_stats}

pub db-overview : (b : Broker) (w : World) → (overview b w).1.db ≡ w.db
unfolding overview get_overview_stats
db-overview b w = ground arith

db-with_stats :
    (rt : Runtime) (rows : List Account) (w : World) → (with_stats rt rows w).1.db ≡ w.db
unfolding with_stats
db-with_stats rt [] w = refl
db-with_stats rt (a ∷ rest) w =
    let (r, w') = get_quick_stats rt a.id w in db-with_stats rt rest w' ∙ db-quick_stats rt a.id w

db-list_found :
    (rt : Runtime) (r : Result (List Account)) (w : World) → (list_found rt (r, w)).1.db ≡ w.db
unfolding list_found
db-list_found rt (err e) w = refl
db-list_found rt (ok rows) w = db-with_stats rt rows w

db-find_all : (limit offset : ℕ) (w : World) → (Accounts.find_all limit offset w).1.db ≡ w.db
unfolding Accounts.find_all
db-find_all limit offset w = ground arith

pub db-list_accounts : (rt : Runtime) (w : World) → (list_accounts rt w).1.db ≡ w.db
unfolding list_accounts
db-list_accounts rt w =
    let (r, w') = Accounts.find_all 100 0 w in db-list_found rt r w' ∙ db-find_all 100 0 w

pub db-account_conversations : (id : Str) (w : World) → (account_conversations id w).1.db ≡ w.db
unfolding account_conversations Conversations.find_by_account_id
db-account_conversations id w = ground arith

pub db-account_messages :
    (id type : Str) (limit offset : Parameter) (w : World)
    → (account_messages id type limit offset w).1.db ≡ w.db
unfolding account_messages Outbound.find_by_account_id Inbound.find_by_account_id
db-account_messages id type limit offset w = ground arith

pub db-account_stats :
    (rt : Runtime) (b : Broker) (id : Str) (w : World) → (account_stats rt b id w).1.db ≡ w.db
unfolding account_stats Conversations.find_by_account_id
db-account_stats rt b id w = ground (arith, db-quick_stats rt id w)

pub db-failed_messages : (id : Str) (w : World) → (account_failed_messages id w).1.db ≡ w.db
unfolding account_failed_messages Outbound.find_recent_failed_by_account_id
db-failed_messages id w = ground arith

pub db-list_sessions : (limit : Parameter) (w : World) → (list_sessions limit w).1.db ≡ w.db
unfolding list_sessions Sessions.find_recent
db-list_sessions limit w = ground arith

module _ (P : Database → Type 0) (law : KeptBy P) where
  pub regenerate_token-keeps :
      (rt : Runtime) (id : Str) (w : World) → P w.db → P (regenerate_token rt id w).1.db
  unfolding regenerate_token
  regenerate_token-keeps rt id w p =
      (Keeps-bind P generate_token
          (λ token. Accounts.update_token id (hash_token rt token) >>= λ _. pure token)
          (Keeps-generate_token P)
          (λ token.
            Keeps-bind P (Accounts.update_token id (hash_token rt token)) (λ _. pure token)
              (update_token-Keeps P law id (hash_token rt token)) (λ _. Keeps-pure P token))).keeps
        w p
