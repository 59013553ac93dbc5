-- ===== src/Tests/Text.antt =====
-- Examples of commands, codes, keys and callback URLs.
use kakao_relay.Prelude.{
  ℕ, Str, true, false, some, [], ◌∷◌, ◌++◌, lit, length, ◌≡◌, refl, ◌↔◌, trim_space, str_eq,
}
use kakao_relay.World.{World, ok}
use kakao_relay.Service.Callback.{is_valid_callback_url}
use kakao_relay.Service.Callback.Hosts.{KakaoUrl, is_valid_callback_url_iff}
use kakao_relay.Service.Conversation.Keys.{build_conversation_key-injective}
use kakao_relay.Service.Session.{generate_session_pairing_code}
use kakao_relay.Service.Session.Codes.{generated-parses}
use kakao_relay.Handler.Command.{Command, pair, parse_command}
use kakao_relay.Handler.Command.Parsing.{Denotes, parse_command-Denotes}
use kakao_relay.Tests.Data.{runtime, world}

abbrev url : Str
url = lit "https://bot.kakao.com/cb"

is_valid_callback_url_iff_example :
    (is_valid_callback_url runtime url ≡ true) ↔ KakaoUrl runtime url
is_valid_callback_url_iff_example = is_valid_callback_url_iff runtime url

build_conversation_key-injective_example : (lit "ch" ≡ lit "ch") × (lit "u1" ≡ lit "u1")
build_conversation_key-injective_example =
    build_conversation_key-injective (lit "ch") (lit "ch") (lit "u1") (lit "u1") (refl, (refl, tt))
      (refl, (refl, tt)) refl

abbrev command : Command
command = record { type = pair; code = lit "AB-12" }

parses : parse_command runtime.upper_table (lit " /pair ab-12") ≡ some command
unfolding parse_command kakao_relay.Prelude.has_prefix trim_space kakao_relay.Prelude.to_upper
parses = refl

parse_command-Denotes_example :
    Denotes runtime.upper_table (trim_space (lit " /pair ab-12")) pair (lit "AB-12")
parse_command-Denotes_example =
    parse_command-Denotes runtime.upper_table (lit " /pair ab-12") command parses

abbrev drawn : World
drawn = record world { draws = [] }

draws : generate_session_pairing_code world ≡ (ok (lit "ABAA-AAAA"), drawn)
unfolding generate_session_pairing_code
draws = refl

generated-parses_example :
    (length (lit "ABAA-AAAA") ≡ 9)
    × (parse_command runtime.upper_table (lit "/pair " ++ lit "ABAA-AAAA")
        ≡ some (record { type = pair; code = lit "ABAA-AAAA" }))
generated-parses_example = generated-parses runtime.upper_table world drawn (lit "ABAA-AAAA") draws
