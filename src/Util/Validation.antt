-- ===== src/Util/Validation.antt =====
-- internal/util/validation.go
pub mod Uuids
use kakao_relay.Prelude.{
  ℕ, suc, zero, Str, str_eq, Bool, true, false, ◌&&◌, ◌||◌, Option, none, some, List, [], ◌∷◌, leb,
  ◌==◌, if◌then◌else◌, is_empty,
}

-- `[0-9a-f]`
abbrev pub is_hex : ℕ → Bool
is_hex c = (leb b'0' c && leb c b'9') || (leb b'a' c && leb c b'f')

-- `[0-9a-f]{n}` at the front: what is behind it.
unfoldable pub hex_run : ℕ → Str → Option Str
hex_run zero s = some s
hex_run (suc n) [] = none
hex_run (suc n) (c ∷ s) = let rest = hex_run n s in if is_hex c then rest else none

-- `-` at the front.
abbrev pub dash : Option Str → Option Str
dash (some (c ∷ s)) = if c == b'-' then some s else none
dash _ = none

abbrev pub run_at : ℕ → Option Str → Option Str
run_at n none = none
run_at n (some s) = hex_run n s

-- `$`
abbrev pub at_end : Option Str → Bool
at_end (some []) = true
at_end _ = false

-- `uuidRegex`
unfoldable pub uuid_regex : Str → Bool
unfolding hex_run
uuid_regex s =
    at_end (run_at 12 (dash (run_at 4 (dash (run_at 4 (dash (run_at 4 (dash (hex_run 8 s)))))))))

-- `IsValidUUID`
unfoldable pub is_valid_uuid : Str → Bool
unfolding uuid_regex
is_valid_uuid s = if is_empty s then false else uuid_regex s

-- `IsValidEnum`: the loop, and the empty value that is always valid.
unfoldable pub is_listed : Str → List Str → Bool
is_listed value [] = false
is_listed value (v ∷ vs) = if str_eq value v then true else is_listed value vs

unfoldable pub is_valid_enum : Str → List Str → Bool
unfolding is_listed
is_valid_enum value values = if is_empty value then true else is_listed value values
