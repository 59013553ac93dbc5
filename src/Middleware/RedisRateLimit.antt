-- ===== src/Middleware/RedisRateLimit.antt =====
-- internal/middleware/ratelimit_redis.go and internal/service/rate_limiter.go: the limiters that
-- run a Lua script in Redis.
-- A key holds a sorted set of times in seconds, oldest first; each member is a time with a random
-- number. Redis drops a key whose time to live is over.
pub mod Window
pub mod Members
pub mod Sets
pub mod Refinement
use kakao_relay.Prelude.{
  ℕ, ◌+◌, ◌-◌, ◌/◌, Str, true, false, Option, none, some, List, [], ◌∷◌, ◌++◌, ltb, leb, ◌==◌, ◌&&◌,
  ◌||◌, if◌then◌else◌, length, lit,
}
use kakao_relay.Model.{Account, second}
use kakao_relay.Middleware.RateLimit.{Verdict, Gate, unlimited, gate, effective_limit}

abbrev pub rate_limit_window : ℕ
rate_limit_window = 60

-- The sorted set of a key: (score, random part of the member).
pub record SortedSet : Type 0 where
  pub members : List (ℕ × ℕ)
  pub expires_at : ℕ

abbrev pub empty_set : SortedSet
empty_set = record { members = []; expires_at = 0 }

-- ZREMRANGEBYSCORE key -inf windowStart, where windowStart = now - window may be negative.
unfoldable pub drop_old : ℕ → ℕ → List (ℕ × ℕ) → List (ℕ × ℕ)
drop_old window now [] = []
drop_old window now ((t, r) ∷ rest) =
    let others = drop_old window now rest in
    if leb (t + window) now then others else (t, r) ∷ others

-- ZADD: an equal member is not added again; members stay in the order of their scores.
unfoldable pub add_member : ℕ → ℕ → List (ℕ × ℕ) → List (ℕ × ℕ)
add_member now r [] = (now, r) ∷ []
add_member now r ((t, q) ∷ rest) =
    if ltb now t || (t == now && ltb r q)
    then (now, r) ∷ (t, q) ∷ rest
    else if t == now && r == q
    then (t, q) ∷ rest
    else (t, q) ∷ add_member now r rest

-- The key at the time of the call: gone once its time to live is over.
abbrev pub present : ℕ → SortedSet → List (ℕ × ℕ)
present now s = if leb s.expires_at now then [] else s.members

abbrev pub oldest_reset : ℕ → ℕ → List (ℕ × ℕ) → ℕ
oldest_reset window now [] = now + window
oldest_reset window now ((t, r) ∷ rest) = t + window

-- What is left of the key when the script adds nothing: no command sets a new time to live.
abbrev pub kept : SortedSet → List (ℕ × ℕ) → SortedSet
kept s members = record s { members = members }

-- `rateLimitScript`
unfoldable pub run_script : ℕ → ℕ → ℕ → ℕ → SortedSet → Verdict × SortedSet
unfolding drop_old add_member
run_script window limit now r s =
    let members = drop_old window now (present now s) in
    if leb limit (length members)
    then (
      record { allowed = false; remaining = 0; reset_at = oldest_reset window now members },
      kept s members,
    )
    else (
      record { allowed = true; remaining = limit - length members - 1; reset_at = now + window },
      record { members = add_member now r members; expires_at = now + window + 10 },
    )

-- `Check` and `CheckLimit`: an error of Redis denies the request.
unfoldable pub check : ℕ → ℕ → ℕ → Option ℕ → SortedSet → Verdict × SortedSet
unfolding run_script
check window limit now none s =
    (record { allowed = false; remaining = 0; reset_at = now + window }, s)
check window limit now (some r) s = run_script window limit now r s

-- `RedisRateLimitMiddleware.Handler`, at a clock in nanoseconds; `none` is an error of Redis.
unfoldable pub handler : Option Account → ℕ → Option ℕ → SortedSet → Gate × SortedSet
unfolding check
handler none now r s = (unlimited, s)
handler (some a) now r s =
    let limit = effective_limit a.rate_limit_per_min in
    let (v, s') = check rate_limit_window limit (now / second) r s in (gate limit v, s')
