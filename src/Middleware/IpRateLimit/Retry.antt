-- ===== src/Middleware/IpRateLimit/Retry.antt =====
-- internal/middleware/ip_ratelimit.go: the time that a refused client is told to wait.
use kakao_relay.Prelude.{
  ℕ, ◌+◌, ◌-◌, ◌*◌, ◌/◌, ◌≤◌, ◌<◌, ◌≡◌, refl, Bool, true, false, Bool-cases, inl, inr, Option, none,
  some, List, [], ◌∷◌, leb, length, arith, All,
}
use kakao_relay.Model.{pos, second}
use kakao_relay.Middleware.RedisRateLimit.{SortedSet, present, drop_old, oldest_reset}
use kakao_relay.Middleware.RedisRateLimit.Members.{Past, All-drop_old, All-present}
use kakao_relay.Service.RateLimiter.{rate_limit_script, check_limit}
use kakao_relay.Middleware.IpRateLimit.{
  IpRateLimit, IpGate, passed, too_many_requests, ip_gate, ip_handler, seconds_left,
}

drop_old-Live :
    (window now : ℕ) (ms : List (ℕ × ℕ)) → All (λ m. now < m.0 + window) (drop_old window now ms)
unfolding drop_old
drop_old-Live window now [] = tt
drop_old-Live window now ((t, r) ∷ ms) = elim (Bool-cases (leb (t + window) now)) [
  | inl old ↦ rw old (drop_old-Live window now ms)
  | inr new ↦ rw new (ground (arith, new), drop_old-Live window now ms)
]

-- The oldest member of the window leaves it after now, and at most a window later.
oldest_reset-bounds :
    (window now : ℕ) (ms : List (ℕ × ℕ))
    → 1 ≤ window
    → All (λ m. now < m.0 + window) ms
    → Past now ms
    → (now < oldest_reset window now ms) × (oldest_reset window now ms ≤ now + window)
oldest_reset-bounds window now [] one live past = (omega arith, omega arith)
oldest_reset-bounds window now ((t, r) ∷ ms) one (l, live) (p, past) = (l, omega arith)

script_reset-bounds :
    (window limit now r : ℕ) (s : SortedSet)
    → 1 ≤ window
    → Past now s.members
    → (rate_limit_script window limit now r s).0.0 ≡ false
    → (now < (rate_limit_script window limit now r s).0.1)
      × ((rate_limit_script window limit now r s).0.1 ≤ now + window)
unfolding rate_limit_script
script_reset-bounds window limit now r s one past refused =
    elim (Bool-cases (leb limit (length (drop_old window now (present now s))))) [
      | inl full ↦ rw full (
          oldest_reset-bounds window now (drop_old window now (present now s)) one
            (drop_old-Live window now (present now s))
            (All-drop_old (λ m. m.0 ≤ now) window now (present now s)
              (All-present (λ m. m.0 ≤ now) now s past)))
      | inr room ↦ absurd (ground (arith, room, refused))
    ]

-- A refusal tells a positive number of seconds, at most `most`.
unfoldable pub WaitsUpTo : ℕ → IpGate → Type 0
WaitsUpTo most passed = Unit
WaitsUpTo most (too_many_requests k) = (n : ℕ) × (k ≡ pos n) × (1 ≤ n) × (n ≤ most)

seconds_left-Waits :
    (window reset_at now : ℕ)
    → now ≤ reset_at
    → reset_at ≤ now + window * second
    → WaitsUpTo (window + 1) (too_many_requests (seconds_left reset_at now))
unfolding WaitsUpTo seconds_left
seconds_left-Waits window reset_at now low high =
    ((reset_at - now) / second + 1, ground (arith, low), omega arith, omega arith)

gate-Waits :
    (window now : ℕ) (b : Bool) (reset_at : ℕ) (s : SortedSet)
    → (b ≡ false → (now ≤ reset_at) × (reset_at ≤ now + window * second))
    → WaitsUpTo (window + 1) (ip_gate now ((b, reset_at), s)).0
gate-Waits window now true reset_at s h = unfold WaitsUpTo in tt
gate-Waits window now false reset_at s h =
    seconds_left-Waits window reset_at now (h refl).0 (h refl).1

-- For a window of at least a second and a clock that has not gone back, a request that the limiter
-- refuses is told to wait from 1 second to a second more than the window, and never longer, whether
-- Redis answers or not.
pub ip_handler-Waits :
    (m : IpRateLimit) (now : ℕ) (r : Option ℕ) (s : SortedSet)
    → 1 ≤ m.window
    → Past (now / second) s.members
    → WaitsUpTo (m.window + 1) (ip_handler m now r s).0
unfolding ip_handler check_limit
ip_handler-Waits m now none s one past =
    gate-Waits m.window now false (now + m.window * second) s (λ _. (omega arith, omega arith))
ip_handler-Waits m now (some r) s one past =
    gate-Waits m.window now (rate_limit_script m.window m.limit (now / second) r s).0.0
      ((rate_limit_script m.window m.limit (now / second) r s).0.1 * second)
      (rate_limit_script m.window m.limit (now / second) r s).1
      (λ refused.
        let (low, high) =
          script_reset-bounds m.window m.limit (now / second) r s one past refused in
        (omega (arith, low), omega (arith, high)))
