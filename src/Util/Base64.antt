-- ===== src/Util/Base64.antt =====
-- `hex.DecodeString` and `base64.StdEncoding` of Go's standard library, which
-- internal/util/encryption.go calls. A Go string is its list of bytes here.
pub mod RoundTrip
use kakao_relay.Prelude.{
  ℕ, ◌+◌, ◌-◌, ◌*◌, ◌/◌, ◌%◌, ◌<◌, Str, Bool, true, false, ◌&&◌, ◌||◌, Option, none, some, List, [],
  ◌∷◌, ◌++◌, ltb, leb, ◌==◌, if◌then◌else◌,
}

-- Every element is a byte.
unfoldable pub IsBytes : List ℕ → Type 0
IsBytes [] = Unit {0}
IsBytes (b ∷ bs) = (b < 256) × IsBytes bs

unfoldable pub hex_value : ℕ → Option ℕ
hex_value c =
    if leb b'0' c && leb c b'9'
    then some (c - b'0')
    else if leb b'a' c && leb c b'f'
    then some (c - b'a' + 10)
    else if leb b'A' c && leb c b'F'
    then some (c - b'A' + 10)
    else none

abbrev pub cons_byte : Option ℕ → Option ℕ → Option (List ℕ) → Option (List ℕ)
cons_byte (some h) (some l) (some bs) = some ((h * 16 + l) ∷ bs)
cons_byte _ _ _ = none

-- `hex.DecodeString`: an odd length or a wrong digit is an error.
unfoldable pub hex_decode : Str → Option (List ℕ)
unfolding hex_value
hex_decode [] = some []
hex_decode (_ ∷ []) = none
hex_decode (h ∷ l ∷ s) = cons_byte (hex_value h) (hex_value l) (hex_decode s)

-- The alphabet `A-Za-z0-9+/`.
unfoldable pub base64_char : ℕ → ℕ
base64_char n =
    if ltb n 26
    then b'A' + n
    else if ltb n 52
    then b'a' + (n - 26)
    else if ltb n 62
    then b'0' + (n - 52)
    else if n == 62
    then b'+'
    else b'/'

unfoldable pub base64_value : ℕ → Option ℕ
base64_value c =
    if leb b'A' c && leb c b'Z'
    then some (c - b'A')
    else if leb b'a' c && leb c b'z'
    then some (c - b'a' + 26)
    else if leb b'0' c && leb c b'9'
    then some (c - b'0' + 52)
    else if c == b'+'
    then some 62
    else if c == b'/'
    then some 63
    else none

-- `EncodeToString`: four characters for three bytes, `=` where bytes are missing.
unfoldable pub base64_encode : List ℕ → Str
unfolding base64_char
base64_encode [] = []
base64_encode (a ∷ []) = base64_char (a / 4) ∷ base64_char (a % 4 * 16) ∷ b'=' ∷ b'=' ∷ []
base64_encode (a ∷ b ∷ []) =
    base64_char (a / 4) ∷ base64_char (a % 4 * 16 + b / 16) ∷ base64_char (b % 16 * 4) ∷ b'=' ∷ []
base64_encode (a ∷ b ∷ c ∷ rest) =
    base64_char (a / 4)
    ∷ base64_char (a % 4 * 16 + b / 16)
    ∷ base64_char (b % 16 * 4 + c / 64)
    ∷ base64_char (c % 64)
    ∷ base64_encode rest

-- The decoder skips `\n` and `\r`.
unfoldable pub skip_newlines : Str → Str
skip_newlines [] = []
skip_newlines (c ∷ s) = let rest = skip_newlines s in if c == 10 || c == 13 then rest else c ∷ rest

-- The bytes of two, three and four characters; surplus bits of the last one are dropped.
abbrev pub one_byte : Option ℕ → Option ℕ → Option (List ℕ)
one_byte (some p) (some q) = some ((p * 4 + q / 16) ∷ [])
one_byte _ _ = none

abbrev pub two_bytes : Option ℕ → Option ℕ → Option ℕ → Option (List ℕ)
two_bytes (some p) (some q) (some r) = some ((p * 4 + q / 16) ∷ (q % 16 * 16 + r / 4) ∷ [])
two_bytes _ _ _ = none

abbrev pub three_bytes :
    Option ℕ → Option ℕ → Option ℕ → Option ℕ → Option (List ℕ) → Option (List ℕ)
three_bytes (some p) (some q) (some r) (some s) (some rest) =
    some ((p * 4 + q / 16) ∷ (q % 16 * 16 + r / 4) ∷ (r % 4 * 64 + s) ∷ rest)
three_bytes _ _ _ _ _ = none

-- The last four characters: `=` may stand for the last one or the last two.
unfoldable pub last_quad : ℕ → ℕ → ℕ → ℕ → Option (List ℕ)
unfolding base64_value
last_quad p q r s =
    if s == b'='
    then (if r == b'='
        then one_byte (base64_value p) (base64_value q)
        else two_bytes (base64_value p) (base64_value q) (base64_value r))
    else three_bytes (base64_value p) (base64_value q) (base64_value r) (base64_value s) (some [])

unfoldable pub decode_quads : Str → Option (List ℕ)
unfolding last_quad base64_value
decode_quads [] = some []
decode_quads (p ∷ q ∷ r ∷ s ∷ []) = last_quad p q r s
decode_quads (p ∷ q ∷ r ∷ s ∷ t ∷ rest) =
    three_bytes (base64_value p) (base64_value q) (base64_value r) (base64_value s)
      (decode_quads (t ∷ rest))
decode_quads _ = none

-- `DecodeString`
unfoldable pub base64_decode : Str → Option (List ℕ)
unfolding skip_newlines decode_quads
base64_decode s = decode_quads (skip_newlines s)
