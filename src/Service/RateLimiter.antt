-- ===== src/Service/RateLimiter.antt =====
-- internal/service/rate_limiter.go: the limiter for any key. Its script runs the same commands on
-- the key's sorted set as the one of the account limiter.
pub mod Windows
use kakao_relay.Prelude.{
  ℕ, ◌+◌, ◌*◌, ◌/◌, Str, Bool, true, false, Option, none, some, ◌++◌, leb, if◌then◌else◌, length,
  lit,
}
use kakao_relay.Model.{second}
use kakao_relay.Middleware.RedisRateLimit.{
  SortedSet, drop_old, add_member, present, oldest_reset, kept,
}

-- `rateLimitScript`: whether the call is allowed (1 or 0), and when the window ends.
unfoldable pub rate_limit_script : ℕ → ℕ → ℕ → ℕ → SortedSet → (Bool × ℕ) × SortedSet
unfolding drop_old add_member
rate_limit_script window limit now r s =
    let members = drop_old window now (present now s) in
    if leb limit (length members)
    then ((false, oldest_reset window now members), kept s members)
    else (
      (true, now + window),
      record { members = add_member now r members; expires_at = now + window + 10 },
    )

-- `fmt.Sprintf("ratelimit:%s", key)`
abbrev pub full_key : Str → Str
full_key key = lit "ratelimit:" ++ key

-- The reset time of the answer is a `time.Time`.
abbrev pub timed : (Bool × ℕ) × SortedSet → (Bool × ℕ) × SortedSet
timed ((allowed, reset_at), s) = ((allowed, reset_at * second), s)

-- `CheckLimit` at a clock in nanoseconds, for a window in seconds; `none` is an error of Redis.
unfoldable pub check_limit : ℕ → ℕ → ℕ → Option ℕ → SortedSet → (Bool × ℕ) × SortedSet
unfolding rate_limit_script
check_limit window limit now none s = ((false, now + window * second), s)
check_limit window limit now (some r) s = timed (rate_limit_script window limit (now / second) r s)
