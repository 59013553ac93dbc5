-- ===== src/Prelude/Text.antt =====
-- Go strings as lists of code points: comparison, prefixes and suffixes, `strings.TrimSpace`,
-- `strings.ToUpper`, `strings.ToLower` and `strings.Split` as the program uses them.
use Prim.Native.Nat.{ℕ, zero, suc, ◌-◌, ◌+◌, ◌/◌, ◌%◌}
use Prim.Native.Char.{code}
use Prim.Native.String.{String}
use mathlib.Core.Path.{◌≡◌, refl}
use mathlib.Core.Logic.{◌↔◌}
use mathlib.Core.Bool.{Bool, true, false, ◌&&◌, ◌||◌}
use mathlib.Core.Option.{Option, none, some}
use mathlib.Core.List.{List, [], ◌∷◌, map, reverse}
use native.Mathlib.Omega.{arith}
use kakao_relay.Prelude.Tests.{ltb, leb, ◌==◌, if◌then◌else◌}

abbrev pub Str : Type 0
Str = List ℕ

-- A literal of the source.
abbrev pub lit : String → Str
lit String.[] = []
lit (String.◌∷◌ c s) = code c ∷ lit s

unfoldable pub str_eq : Str → Str → Bool
str_eq [] [] = true
str_eq (a ∷ s) (b ∷ t) = a == b && str_eq s t
str_eq _ _ = false

pub str_eq_iff : (s t : Str) → (str_eq s t ≡ true) ↔ (s ≡ t)
unfolding str_eq
str_eq_iff [] [] = (λ _. refl, λ _. refl)
str_eq_iff [] (b ∷ t) = ((λ e. cc), (λ e. cc))
str_eq_iff (a ∷ s) [] = ((λ e. cc), (λ e. cc))
str_eq_iff (a ∷ s) (b ∷ t) = ground (arith, str_eq_iff s t)

pub str_eq_refl : (s : Str) → str_eq s s ≡ true
str_eq_refl s = (str_eq_iff s s).1 refl

-- `column = $1`; NULL equals nothing.
abbrev pub option_is : Option Str → Str → Bool
option_is none t = false
option_is (some s) t = str_eq s t

-- `s == ""`
abbrev pub is_empty : Str → Bool
is_empty [] = true
is_empty (_ ∷ _) = false

-- `strings.HasPrefix(s, p)`
unfoldable pub has_prefix : Str → Str → Bool
has_prefix s [] = true
has_prefix [] (_ ∷ _) = false
has_prefix (a ∷ s) (b ∷ p) = a == b && has_prefix s p

-- `strings.HasSuffix(s, p)`
unfoldable pub has_suffix : Str → Str → Bool
unfolding has_prefix
has_suffix s p = has_prefix (reverse s) (reverse p)

-- `unicode.IsSpace`
unfoldable pub is_space : ℕ → Bool
is_space c =
    c == 9
    || c == 10
    || c == 11
    || c == 12
    || c == 13
    || c == 32
    || c == 0x85
    || c == 0xA0
    || c == 0x1680
    || (leb 0x2000 c && leb c 0x200a)
    || c == 0x2028
    || c == 0x2029
    || c == 0x202f
    || c == 0x205f
    || c == 0x3000

unfoldable pub trim_left : Str → Str
unfolding is_space
trim_left [] = []
trim_left (c ∷ s) = let rest = trim_left s in if is_space c then rest else c ∷ s

-- `strings.TrimSpace`
unfoldable pub trim_space : Str → Str
unfolding trim_left
trim_space s = reverse (trim_left (reverse (trim_left s)))

-- One step of `strings.Split`: the character starts a new part or joins the first one.
unfoldable pub cons_part : Bool → ℕ → List Str → List Str
cons_part true c parts = [] ∷ parts
cons_part false c [] = (c ∷ []) ∷ []
cons_part false c (p ∷ parts) = (c ∷ p) ∷ parts

-- `strings.Split(s, sep)` for a separator of one character.
unfoldable pub split : ℕ → Str → List Str
unfolding cons_part
split sep [] = [] ∷ []
split sep (c ∷ s) = cons_part (c == sep) c (split sep s)

-- `unicode.ToUpper`: ASCII is written out, the table for other characters is an argument.
unfoldable pub upper_rune : (ℕ → ℕ) → ℕ → ℕ
upper_rune table c = if ltb c 128 then (if leb b'a' c && leb c b'z' then c - 32 else c) else table c

-- `strings.ToUpper`
unfoldable pub to_upper : (ℕ → ℕ) → Str → Str
unfolding upper_rune
to_upper table = map (upper_rune table)

-- `unicode.ToLower`, likewise.
unfoldable pub lower_rune : (ℕ → ℕ) → ℕ → ℕ
lower_rune table c = if ltb c 128 then (if leb b'A' c && leb c b'Z' then c + 32 else c) else table c

-- `strings.ToLower`
unfoldable pub to_lower : (ℕ → ℕ) → Str → Str
unfolding lower_rune
to_lower table = map (lower_rune table)

-- `%d` of a natural number: the digits on fuel; a number has at most as many digits as its value.
unfoldable pub decimal_from : ℕ → ℕ → Str → Str
decimal_from zero n acc = acc
decimal_from (suc fuel) n acc =
    let rest = decimal_from fuel (n / 10) ((b'0' + n % 10) ∷ acc) in
    if ltb n 10 then (b'0' + n) ∷ acc else rest

unfoldable pub decimal : ℕ → Str
unfolding decimal_from
decimal n = decimal_from (suc n) n []
