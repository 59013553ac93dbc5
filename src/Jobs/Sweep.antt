-- ===== src/Jobs/Sweep.antt =====
-- What a sweep of the cleanup job leaves.
use kakao_relay.Prelude.{
  ℕ, Bool, true, false, not, Option, none, some, List, [], ◌∷◌, ◌≡◌, refl, ap₂, arith, map, select,
  update_where, delete_where, ltb, leb, if◌then◌else◌,
}
use kakao_relay.Model.{
  Session, InboundMessage, InboundMessageStatus, SessionStatus, queued, delivered, acked, expired,
  paired, pending_pairing, disconnected,
}
use kakao_relay.World.{Database, World, next}
use kakao_relay.Repository.Inbound
use kakao_relay.Repository.Inbound.{is_overdue, set_expired}
use kakao_relay.Repository.Sessions
use kakao_relay.Repository.Sessions.{is_stale}
use kakao_relay.Jobs.{cleanup}

-- The database answers the coming two calls.
pub record Answers2 (w : World) : Type 0 where
  pub first : (next none w.db_faults).0 ≡ none
  pub second : (next none (next none w.db_faults).1).0 ≡ none

-- The rows that a sweep leaves, written out.
abbrev pub swept : ℕ → Database → Database
swept now db = record db {
  inbound = update_where (is_overdue now) set_expired db.inbound;
  sessions = delete_where (is_stale now) db.sessions;
}

cleanup-swept : (w : World) → Answers2 w → (cleanup true w).db ≡ swept w.now w.db
unfolding cleanup Inbound.mark_expired Sessions.delete_expired
cleanup-swept w h = ground (arith, h.first, h.second)

-- What the sweep makes of a message's status: one that waits past its callback's time expires.
pub aged : ℕ → InboundMessageStatus → Option ℕ → InboundMessageStatus
aged now queued (some t) = if ltb t now then expired else queued
aged now queued none = queued
aged now delivered e = delivered
aged now acked e = acked
aged now expired e = expired

abbrev pub aged_message : ℕ → InboundMessage → InboundMessage
aged_message now m = record m { status = aged now m.status m.callback_expires_at }

-- Whether the sweep leaves a session: a paired one always, one that waits until its time is past,
-- and a closed one never.
pub survives : ℕ → SessionStatus → ℕ → Bool
survives now paired t = true
survives now pending_pairing t = leb now t
survives now SessionStatus.expired t = false
survives now disconnected t = false

-- What a sweep promises: each message is kept, in its place, with its other columns, and each
-- session that is to survive is kept as it is.
pub record Clean (now : ℕ) (db db' : Database) : Type 0 where
  pub messages : db'.inbound ≡ map (aged_message now) db.inbound
  pub sessions : db'.sessions ≡ select (λ s. survives now s.status s.expires_at) db.sessions
  pub accounts : db'.accounts ≡ db.accounts
  pub conversations : db'.conversations ≡ db.conversations
  pub outbound : db'.outbound ≡ db.outbound

status-aged :
    (now : ℕ) (m : InboundMessage) (st : InboundMessageStatus) (e : Option ℕ)
    → m.status ≡ st
    → m.callback_expires_at ≡ e
    → (if is_overdue now m then set_expired m else m) ≡ record m { status = aged now st e }
unfolding aged
status-aged now m queued (some t) is at = ground (arith, is, at)
status-aged now m queued none is at = ground (arith, is, at)
status-aged now m delivered e is at = ground (arith, is)
status-aged now m acked e is at = ground (arith, is)
status-aged now m expired e is at = ground (arith, is)

messages-aged :
    (now : ℕ) (ms : List InboundMessage)
    → update_where (is_overdue now) set_expired ms ≡ map (aged_message now) ms
unfolding update_where
messages-aged now [] = refl
messages-aged now (m ∷ ms) =
    ap₂ (λ x xs. x ∷ xs) (status-aged now m m.status m.callback_expires_at refl refl)
      (messages-aged now ms)

stale-survives :
    (now : ℕ) (s : Session) (st : SessionStatus)
    → s.status ≡ st
    → not (is_stale now s) ≡ survives now st s.expires_at
unfolding survives
stale-survives now s paired is = ground (arith, is)
stale-survives now s pending_pairing is = ground (arith, is)
stale-survives now s SessionStatus.expired is = ground (arith, is)
stale-survives now s disconnected is = ground (arith, is)

sessions-left :
    (now : ℕ) (ss : List Session)
    → delete_where (is_stale now) ss ≡ select (λ s. survives now s.status s.expires_at) ss
unfolding delete_where select
sessions-left now [] = refl
sessions-left now (s ∷ ss) =
    ground (arith, stale-survives now s s.status refl, sessions-left now ss)

swept-Clean : (now : ℕ) (db : Database) → Clean now db (swept now db)
swept-Clean now db = record {
  messages = messages-aged now db.inbound;
  sessions = sessions-left now db.sessions;
  accounts = refl;
  conversations = refl;
  outbound = refl;
}

-- When the database answers both calls, a sweep expires exactly the queued messages whose callback's
-- time is past, and keeps every message in its place with its other columns. It removes exactly the
-- sessions that are closed or wait past their time, and keeps the paired ones, and those that wait
-- in time, as they are and in their order. The other tables are not touched.
pub cleanup-Clean : (w : World) → Answers2 w → Clean w.now w.db (cleanup true w).db
cleanup-Clean w h = rw (cleanup-swept w h) (swept-Clean w.now w.db)
