-- ===== src/Runtime.antt =====
-- What the program takes from the standard library and cannot be read here, as one argument of
-- the definitions that use it: `net/url`, SHA-256 and HMAC, the Unicode case tables above ASCII,
-- and the time zone. internal/util/crypto.go wraps the hashes.
use kakao_relay.Prelude.{ℕ, Str, Bool, Option, List, str_eq}
use kakao_relay.World.{hex_encode}

-- The parts of a `url.URL` that the program reads.
pub record Url : Type 0 where
  pub scheme : Str
  pub hostname : Str

pub record Runtime : Type 0 where
  pub parse_url : Str → Option Url
  pub sha256 : Str → List ℕ
  pub hmac_sha256 : Str → Str → List ℕ
  pub upper_table : ℕ → ℕ
  pub lower_table : ℕ → ℕ
  -- `time.Format` of a time for a reader
  pub format_time : ℕ → Str
  -- midnight of the local day of a time
  pub day_start : ℕ → ℕ

-- `util.HashToken`
unfoldable pub hash_token : Runtime → Str → Str
hash_token rt token = hex_encode (rt.sha256 token)

-- `util.HmacSHA256`
unfoldable pub hmac : Runtime → Str → Str → Str
hmac rt secret body = hex_encode (rt.hmac_sha256 secret body)

-- `util.ConstantTimeEqual`: `ConstantTimeCompare` is 1 exactly for equal contents.
abbrev pub constant_time_equal : Str → Str → Bool
constant_time_equal a b = str_eq a b
