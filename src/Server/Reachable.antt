-- ===== src/Server/Reachable.antt =====
-- The states that the server reaches: requests, sweeps of the cleanup job, and what happens outside
-- between them, in any order. A request or a sweep is one step.
use kakao_relay.Prelude.{◌≡◌, sym, subst, Bool, []}
use kakao_relay.Prelude.Keys.{Distinct}
use kakao_relay.World.{Database, World}
use kakao_relay.Runtime.{Runtime}
use kakao_relay.Jobs.{cleanup}
use kakao_relay.Repository.Statements.{KeptBy}
use kakao_relay.Repository.WellFormed.{WellFormed}
use kakao_relay.Repository.WellFormed.Kept.{WellFormed-KeptBy}
use kakao_relay.Repository.Consistent.{Consistent}
use kakao_relay.Repository.Consistent.Kept.{Consistent-KeptBy}
use kakao_relay.Server.Routes.{Settings, Request, Server}
use kakao_relay.Server.Serve.{serve}
use kakao_relay.Server.Invariants.Endpoints.{cleanup-keeps}
use kakao_relay.Server.Invariants.Serving.{serve-keeps}

abbrev pub empty_database : Database
empty_database = record {
  accounts = [];
  sessions = [];
  conversations = [];
  inbound = [];
  outbound = [];
}

empty-WellFormed : WellFormed empty_database
unfolding Distinct kakao_relay.Prelude.Unique.Unique
empty-WellFormed = record {
  accounts = record { ids = tt; hashes = tt };
  sessions = record { ids = tt; hashes = tt; codes = tt; links = tt };
  conversations = record { ids = tt; keys = tt; chats = tt; links = tt };
  inbound = record { ids = tt; events = tt; links = tt };
  outbound = record { ids = tt; links = tt; replies = tt };
}

empty-Consistent : Consistent empty_database
empty-Consistent = record { sessions = tt; conversations = tt; inbound = tt; outbound = tt }

module _ (rt : Runtime) (cfg : Settings) where
  -- Outside, everything but the rows may change: time passes, and other calls will fail.
  pub data Step : Server → Server → Type 0 where
    request : (req : Request) (s t : Server) → t ≡ (serve rt cfg req s).1 → Step s t
    sweep : (has_sessions : Bool) (s t : Server) → t.world ≡ cleanup has_sessions s.world → Step s t
    outside : (s t : Server) → t.world.db ≡ s.world.db → Step s t

  pub data Reachable : Server → Type 0 where
    start : (s : Server) → s.world.db ≡ empty_database → Reachable s
    then_step : (s t : Server) → Reachable s → Step s t → Reachable t

  -- What the statements keep and the empty tables have holds of every reachable state.
  module _ (P : Database → Type 0) (law : KeptBy P) (base : P empty_database) where
    step-keeps : (s t : Server) → Step s t → P s.world.db → P t.world.db
    step-keeps _ _ (request req s t e) p =
        subst (λ (u : Server). P u.world.db) (sym e) (serve-keeps P law rt cfg req s p)
    step-keeps _ _ (sweep b s t e) p =
        subst (λ (u : World). P u.db) (sym e) (cleanup-keeps P law b s.world p)
    step-keeps _ _ (outside s t e) p = subst P (sym e) p

    Reachable-keeps : (s : Server) → Reachable s → P s.world.db
    Reachable-keeps _ (start s same) = subst P (sym same) base
    Reachable-keeps _ (then_step s t r step) = step-keeps s t step (Reachable-keeps s r)

  -- Whatever requests arrive, whichever calls fail, and however sweeps and time come between,
  -- every primary key, unique column and unique index of the schema stays unique, NULL apart
  -- (relay token hashes, source events and pairs of channel and user among them), and every
  -- account and inbound message that a row names is a row.
  pub Reachable-WellFormed : (s : Server) → Reachable s → WellFormed s.world.db
  Reachable-WellFormed s r = Reachable-keeps WellFormed WellFormed-KeptBy empty-WellFormed s r

  -- In every such state a session that waits names no account, a paired one has its time and its
  -- conversation and does not expire, a paired conversation has its time, only a paired one names an
  -- account, and a delivered, sent or failed message has its time or error text, while one that is
  -- queued or pending has none.
  pub Reachable-Consistent : (s : Server) → Reachable s → Consistent s.world.db
  Reachable-Consistent s r = Reachable-keeps Consistent Consistent-KeptBy empty-Consistent s r
