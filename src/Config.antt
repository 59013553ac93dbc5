-- ===== src/Config.antt =====
-- internal/config/config.go and the constants of internal/config/constants.go that no other file
-- declares. Parsing the environment is the library `env`'s: its result is an argument.
pub mod Durations
use kakao_relay.Prelude.{
  ℕ, ◌*◌, ◌+◌, ◌-◌, ◌%◌, ◌^◌, ltb, Str, Bool, true, false, Option, none, some, List, [], ◌∷◌, ◌++◌,
  lit, decimal, has_prefix, is_empty, if◌then◌else◌,
}
use kakao_relay.Model.{ℤ, pos, negsuc, second, minute}
use kakao_relay.World.{Result, ok, err}

pub record Config : Type 0 where
  pub port : ℤ
  pub database_url : Str
  pub redis_url : Str
  pub kakao_signature_secret : Str
  pub encryption_key : Str
  pub queue_ttl_seconds : ℤ
  pub callback_ttl_seconds : ℤ
  pub log_level : Str

-- A product of `int64`: it wraps at 2^63.
unfoldable pub wrap_int64 : ℤ → ℤ
wrap_int64 (pos n) = let m = n % 2 ^ 64 in if ltb m (2 ^ 63) then pos m else negsuc (2 ^ 64 - m - 1)
wrap_int64 (negsuc n) =
    let m = n % 2 ^ 64 in if ltb m (2 ^ 63) then negsuc m else pos (2 ^ 64 - m - 1)

-- `time.Duration(n) * time.Second`
unfoldable pub seconds_duration : ℤ → ℤ
unfolding wrap_int64
seconds_duration (pos n) = wrap_int64 (pos (n * second))
seconds_duration (negsuc n) = wrap_int64 (negsuc ((n + 1) * second - 1))

-- `QueueTTL` and `CallbackTTL`
unfoldable pub queue_ttl : Config → ℤ
unfolding seconds_duration
queue_ttl c = seconds_duration c.queue_ttl_seconds

unfoldable pub callback_ttl : Config → ℤ
unfolding seconds_duration
callback_ttl c = seconds_duration c.callback_ttl_seconds

-- `%d`
unfoldable pub decimal_int : ℤ → Str
decimal_int (pos n) = decimal n
decimal_int (negsuc n) = b'-' ∷ decimal (n + 1)

-- `Addr`
unfoldable pub addr : Config → Str
unfolding decimal_int
addr c = b':' ∷ decimal_int c.port

-- The warnings of `Validate`, in order; none of them is an error.
abbrev pub warn_if : Bool → Str → List Str → List Str
warn_if true text rest = text ∷ rest
warn_if false text rest = rest

unfoldable pub warnings : Config → List Str
warnings c =
    warn_if (is_empty c.kakao_signature_secret)
      (lit "KAKAO_SIGNATURE_SECRET is empty in production: webhook signature verification disabled")
      (warn_if (has_prefix c.redis_url (lit "redis://"))
        (lit "REDIS_URL uses redis:// (not TLS) in production: consider using rediss://")
        (warn_if (is_empty c.encryption_key)
          (lit
            "ENCRYPTION_KEY is empty in production: sensitive data will not be encrypted at rest")
          []))

-- `Validate`: the error, and what it logs.
unfoldable pub validate : Config → Bool → Result (Unit {0}) × List Str
unfolding warnings
validate c true = (ok tt, warnings c)
validate c false = (ok tt, [])

-- `Load`
unfoldable pub load : Result Config → Result Config
load (ok c) = ok c
load (err e) = err (lit "failed to parse config: " ++ e)

abbrev pub server_request_timeout : ℕ
server_request_timeout = 60 * second

abbrev pub server_read_timeout : ℕ
server_read_timeout = 15 * second

abbrev pub server_idle_timeout : ℕ
server_idle_timeout = 120 * second

abbrev pub server_shutdown_timeout : ℕ
server_shutdown_timeout = 30 * second

abbrev pub db_ping_timeout : ℕ
db_ping_timeout = 5 * second

abbrev pub cleanup_job_interval : ℕ
cleanup_job_interval = 5 * minute
