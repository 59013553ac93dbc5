-- ===== src/Handler/Command/Parsing.antt =====
-- What `parseCommand` accepts.
use kakao_relay.Prelude.{
  ℕ, Str, true, false, some, [], lit, ◌≡◌, arith, is_empty, has_prefix, trim_space, to_upper, drop,
  str_eq_iff,
}
use kakao_relay.Handler.Command.{
  CommandType, Command, pair, unpair, status, help, unknown, parse_plain, parse_pair, parse_trimmed,
  parse_command,
}

-- A `/pair` carries the rest of the text, trimmed and in upper case, which is not empty; the other
-- commands are their whole text and carry no code.
pub Denotes : (ℕ → ℕ) → Str → CommandType → Str → Type 0
Denotes table text pair code =
    (has_prefix text (lit "/pair ") ≡ true)
    × (code ≡ to_upper table (trim_space (drop 6 text)))
    × (is_empty code ≡ false)
Denotes table text unpair code = (text ≡ lit "/unpair") × (code ≡ [])
Denotes table text status code = (text ≡ lit "/status") × (code ≡ [])
Denotes table text help code = (text ≡ lit "/help") × (code ≡ [])
Denotes table text unknown code = ⊥

parse_plain-Denotes :
    (table : ℕ → ℕ) (text : Str) (cmd : Command)
    → parse_plain text ≡ some cmd
    → Denotes table text cmd.type cmd.code
unfolding parse_plain Denotes
parse_plain-Denotes table text cmd h = ground (
  arith,
  str_eq_iff text (lit "/unpair"),
  str_eq_iff text (lit "/status"),
  str_eq_iff text (lit "/help"),
)

parse_trimmed-Denotes :
    (table : ℕ → ℕ) (text : Str) (cmd : Command)
    → parse_trimmed table text ≡ some cmd
    → Denotes table text cmd.type cmd.code
unfolding parse_trimmed parse_pair Denotes
parse_trimmed-Denotes table text cmd h = ground (arith, h, parse_plain-Denotes table text cmd)

-- A text that parses is the command that it denotes: a `/pair` with a code that is not empty, or
-- exactly one of the three plain commands; no text is an unknown command.
pub parse_command-Denotes :
    (table : ℕ → ℕ) (text : Str) (cmd : Command)
    → parse_command table text ≡ some cmd
    → Denotes table (trim_space text) cmd.type cmd.code
unfolding parse_command
parse_command-Denotes table text cmd h = parse_trimmed-Denotes table (trim_space text) cmd h
