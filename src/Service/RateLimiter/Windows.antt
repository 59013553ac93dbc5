-- ===== src/Service/RateLimiter/Windows.antt =====
-- internal/service/rate_limiter.go: the limiter for any key agrees with the account limiter.
use kakao_relay.Prelude.{ℕ, ◌/◌, ◌≡◌, refl, Bool-cases, inl, inr, Option, none, some, leb, length}
use kakao_relay.Model.{second}
use kakao_relay.Middleware.RedisRateLimit.{SortedSet, run_script, check, present, drop_old}
use kakao_relay.Service.RateLimiter.{rate_limit_script, check_limit}

pub rate_limit_script-eq :
    (window limit now r : ℕ) (s : SortedSet)
    → rate_limit_script window limit now r s ≡ (
      ((run_script window limit now r s).0.allowed, (run_script window limit now r s).0.reset_at),
      (run_script window limit now r s).1,
    )
unfolding rate_limit_script run_script
rate_limit_script-eq window limit now r s =
    elim (Bool-cases (leb limit (length (drop_old window now (present now s))))) [
      | inl full ↦ rw full refl
      | inr room ↦ rw room refl
    ]

-- Whether a call is allowed, and the key's set after it, are what the account limiter's `Check`
-- gives at the same second; an error of Redis refuses the call in both.
pub check_limit-eq-check :
    (window limit now : ℕ) (r : Option ℕ) (s : SortedSet)
    → ((check_limit window limit now r s).0.0 ≡ (check window limit (now / second) r s).0.allowed)
      × ((check_limit window limit now r s).1 ≡ (check window limit (now / second) r s).1)
unfolding check_limit check
check_limit-eq-check window limit now none s = (refl, refl)
check_limit-eq-check window limit now (some r) s =
    rw (rate_limit_script-eq window limit (now / second) r s) (refl, refl)
