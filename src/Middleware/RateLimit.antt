-- ===== src/Middleware/RateLimit.antt =====
-- internal/middleware/ratelimit.go: the limiter in memory. Go's map order is free; the model
-- takes the keys to evict from the front of the list.
pub mod Entries
pub mod Refinement
pub mod Promise
use kakao_relay.Prelude.{
  ℕ, ◌+◌, ◌-◌, ◌*◌, ◌/◌, Str, str_eq, Bool, true, false, not, Option, none, some, List, [], ◌∷◌,
  ◌++◌, ltb, leb, if◌then◌else◌, length, drop, select,
}
use kakao_relay.Model.{ℤ, pos, negsuc, Account, second, minute}
use kakao_relay.Middleware.Window.{live}

abbrev pub max_entries : ℕ
max_entries = 10000

abbrev pub cleanup_interval : ℕ
cleanup_interval = minute

abbrev pub entry_ttl : ℕ
entry_ttl = 5 * minute

abbrev pub window_duration : ℕ
window_duration = minute

pub record RateLimitEntry : Type 0 where
  pub timestamps : List ℕ
  pub last_access : ℕ

abbrev pub Store : Type 0
Store = List (Str × RateLimitEntry)

pub record RateLimiter : Type 0 where
  pub store : Store
  pub last_cleanup : ℕ

-- `rl.store[id]`
unfoldable pub entry_of : Str → Store → Option RateLimitEntry
entry_of id [] = none
entry_of id ((k, e) ∷ rest) = if str_eq k id then some e else entry_of id rest

-- `rl.store[id] = entry`
unfoldable pub put_entry : Str → RateLimitEntry → Store → Store
put_entry id e [] = (id, e) ∷ []
put_entry id e ((k, old) ∷ rest) =
    if str_eq k id then (k, e) ∷ rest else (k, old) ∷ put_entry id e rest

-- `now.Sub(entry.lastAccess) > entryTTL`
abbrev pub is_idle : ℕ → Str × RateLimitEntry → Bool
is_idle now (k, e) = ltb entry_ttl (now - e.last_access)

abbrev pub evict : Store → Store
evict s = if ltb max_entries (length s) then drop (length s / 5) s else s

-- `cleanup`
unfoldable pub cleanup : ℕ → RateLimiter → RateLimiter
cleanup now rl =
    if ltb (now - rl.last_cleanup) cleanup_interval
    then rl
    else record { store = evict (select (λ p. not (is_idle now p)) rl.store); last_cleanup = now }

abbrev pub timestamps_of : Option RateLimitEntry → List ℕ
timestamps_of none = []
timestamps_of (some e) = e.timestamps

abbrev pub reset_of : ℕ → List ℕ → ℕ
reset_of now [] = (now + window_duration) / second
reset_of now (t ∷ ts) = (t + window_duration) / second

pub record Verdict : Type 0 where
  pub allowed : Bool
  pub remaining : ℕ
  pub reset_at : ℕ

-- The decision over the timestamps of the window, and the timestamps that are kept.
unfoldable pub decide_window : ℕ → ℕ → List ℕ → Verdict × List ℕ
decide_window limit now ts =
    if leb limit (length ts)
    then (record { allowed = false; remaining = 0; reset_at = reset_of now ts }, ts)
    else (
      record { allowed = true; remaining = limit - length ts - 1; reset_at = reset_of now ts },
      ts ++ now ∷ [],
    )

-- `Check`
unfoldable pub check : Str → ℕ → ℕ → RateLimiter → Verdict × RateLimiter
unfolding cleanup decide_window
check id limit now rl =
    let clean = cleanup now rl in
    let kept = live window_duration now (timestamps_of (entry_of id clean.store)) in
    let (v, ts) = decide_window limit now kept in
    (
      v,
      record clean {
        store = put_entry id (record { timestamps = ts; last_access = now }) clean.store;
      },
    )

-- `config.DefaultRateLimitPerMin`
abbrev pub default_rate_limit_per_min : ℕ
default_rate_limit_per_min = 60

-- `limit <= 0` takes the default.
unfoldable pub effective_limit : ℤ → ℕ
effective_limit (pos n) = if leb n 0 then default_rate_limit_per_min else n
effective_limit (negsuc n) = default_rate_limit_per_min

-- What `Handler` does: the request passes, with or without the rate limit headers, or 429.
pub data Gate : Type 0 where
  unlimited : Gate
  passed : (limit : ℕ) → Verdict → Gate
  too_many_requests : (limit : ℕ) → Verdict → Gate

abbrev pub gate : ℕ → Verdict → Gate
gate limit v = if v.allowed then passed limit v else too_many_requests limit v

unfoldable pub handler : Option Account → ℕ → RateLimiter → Gate × RateLimiter
unfolding check effective_limit
handler none now rl = (unlimited, rl)
handler (some a) now rl =
    let limit = effective_limit a.rate_limit_per_min in
    let (v, rl') = check a.id limit now rl in (gate limit v, rl')
