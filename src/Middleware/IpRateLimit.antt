-- ===== src/Middleware/IpRateLimit.antt =====
-- internal/middleware/ip_ratelimit.go: the limit for an IP address.
pub mod Retry
use kakao_relay.Prelude.{
  ℕ, zero, suc, ◌+◌, ◌-◌, ◌/◌, Str, Bool, true, false, Option, none, some, ◌++◌, leb, if◌then◌else◌,
  lit,
}
use kakao_relay.Model.{ℤ, pos, negsuc, second}
use kakao_relay.Middleware.RedisRateLimit.{SortedSet}
use kakao_relay.Service.RateLimiter.{check_limit}

-- The fields of `IPRateLimitMiddleware` but for the limiter; the window in seconds.
pub record IpRateLimit : Type 0 where
  pub limit : ℕ
  pub window : ℕ
  pub prefix : Str

-- The address without its port, if `net.SplitHostPort` finds one.
abbrev pub ip_of : (Str → Option Str) → Str → Str
ip_of split_host remote_addr = elim (split_host remote_addr) [
  | none ↦ remote_addr
  | some host ↦ host
]

-- `fmt.Sprintf("ip:%s:%s", m.prefix, ip)`
unfoldable pub ip_key : Str → Str → Str
ip_key prefix ip = lit "ip:" ++ prefix ++ lit ":" ++ ip

-- 1 - k
abbrev one_minus : ℕ → ℤ
one_minus zero = pos 1
one_minus (suc zero) = pos 0
one_minus (suc (suc k)) = negsuc k

-- `int(time.Until(resetAt).Seconds()) + 1`: the conversion cuts towards zero.
unfoldable pub seconds_left : ℕ → ℕ → ℤ
seconds_left reset_at now =
    if leb now reset_at
    then pos ((reset_at - now) / second + 1)
    else one_minus ((now - reset_at) / second)

-- The request goes on, or 429 with `Retry-After`.
pub data IpGate : Type 0 where
  passed : IpGate
  too_many_requests : (retry_after : ℤ) → IpGate

abbrev pub ip_gate : ℕ → (Bool × ℕ) × SortedSet → IpGate × SortedSet
ip_gate now ((true, reset_at), s) = (passed, s)
ip_gate now ((false, reset_at), s) = (too_many_requests (seconds_left reset_at now), s)

-- `IPRateLimitMiddleware.Handler` on the sorted set of the address.
unfoldable pub ip_handler : IpRateLimit → ℕ → Option ℕ → SortedSet → IpGate × SortedSet
unfolding check_limit seconds_left
ip_handler m now r s = ip_gate now (check_limit m.window m.limit now r s)
