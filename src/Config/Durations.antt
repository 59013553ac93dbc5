-- ===== src/Config/Durations.antt =====
-- internal/config/config.go: the durations that are read from counts of seconds.
use kakao_relay.Prelude.{ℕ, ◌*◌, ◌≤◌, ◌≡◌, ◌↔◌, arith}
use kakao_relay.Model.{pos, second}
use kakao_relay.Config.{Config, wrap_int64, seconds_duration, callback_ttl}

-- A count of seconds is the duration of that many seconds exactly when it is at most
-- 9,223,372,036: larger ones overflow `int64`.
pub callback_ttl_iff :
    (c : Config) (n : ℕ)
    → c.callback_ttl_seconds ≡ pos n
    → (callback_ttl c ≡ pos (n * second)) ↔ (n ≤ 9223372036)
unfolding callback_ttl seconds_duration wrap_int64
callback_ttl_iff c n h = ground (arith, h)
