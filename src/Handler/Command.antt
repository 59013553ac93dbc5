-- ===== src/Handler/Command.antt =====
-- `parseCommand` of internal/handler/kakao.go
pub mod Parsing
use kakao_relay.Prelude.{
  ℕ, Str, str_eq, Option, none, some, [], lit, if◌then◌else◌, is_empty, has_prefix, trim_space,
  to_upper, drop,
}

pub data CommandType : Type 0 where
  pair unpair status help unknown : CommandType

pub record Command : Type 0 where
  pub type : CommandType
  pub code : Str

abbrev pub plain : CommandType → Command
plain t = record { type = t; code = [] }

-- The tests on the whole text.
unfoldable pub parse_plain : Str → Option Command
parse_plain trimmed =
    if str_eq trimmed (lit "/unpair")
    then some (plain unpair)
    else if str_eq trimmed (lit "/status")
    then some (plain status)
    else if str_eq trimmed (lit "/help")
    then some (plain help)
    else none

-- What follows "/pair ".
unfoldable pub parse_pair : (ℕ → ℕ) → Str → Option Command
unfolding parse_plain
parse_pair table trimmed =
    let code = to_upper table (trim_space (drop 6 trimmed)) in
    if is_empty code then parse_plain trimmed else some (record { type = pair; code = code })

unfoldable pub parse_trimmed : (ℕ → ℕ) → Str → Option Command
unfolding parse_pair
parse_trimmed table trimmed =
    if has_prefix trimmed (lit "/pair ") then parse_pair table trimmed else parse_plain trimmed

-- `parseCommand`
unfoldable pub parse_command : (ℕ → ℕ) → Str → Option Command
unfolding parse_trimmed
parse_command table utterance = parse_trimmed table (trim_space utterance)
