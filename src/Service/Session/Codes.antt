-- ===== src/Service/Session/Codes.antt =====
-- The pairing codes that are drawn, and the command that takes them.
use kakao_relay.Prelude.{
  ℕ, suc, zero, ◌<◌, ◌%◌, Str, Bool, true, false, not, ◌&&◌, some, List, [], ◌∷◌, ◌++◌, lit, ◌≡◌,
  refl, ap, subst, arith, length, all, All, is_space, upper_rune, trim_left, trim_space, to_upper,
  ltb, leb, has_prefix,
}
use kakao_relay.World.{World, Result, ok, next}
use kakao_relay.Service.Session.{
  char_at, code_char, draw_chars, generate_session_pairing_code, session_pairing_code_chars,
}
use kakao_relay.Handler.Command.{pair, parse_command, parse_trimmed, parse_pair}

-- A character that `parseCommand` and `VerifyPairingCode` keep as it is.
abbrev is_plain : ℕ → Bool
is_plain c = not (is_space c) && ltb c 128 && not (leb b'a' c && leb c b'z')

char_at-true :
    (p : ℕ → Bool) (s : Str) (i : ℕ) → i < length s → all p s ≡ true → p (char_at s i) ≡ true
char_at-true p [] i small h = absurd (omega arith)
char_at-true p (c ∷ s) zero small h = ground arith
char_at-true p (c ∷ s) (suc i) small h = char_at-true p s i (omega arith) (ground arith)

chars-plain : all is_plain session_pairing_code_chars ≡ true
unfolding is_space
chars-plain = refl

code_char-plain : (n : ℕ) → is_plain (code_char n) ≡ true
unfolding code_char
code_char-plain n =
    char_at-true is_plain session_pairing_code_chars (n % 32) (omega arith) chars-plain

upper-plain : (table : ℕ → ℕ) (c : ℕ) → is_plain c ≡ true → upper_rune table c ≡ c
unfolding upper_rune
upper-plain table c h = ground arith

space-plain : (c : ℕ) → is_plain c ≡ true → is_space c ≡ false
space-plain c h = ground arith

module _ (a b c d e f g h i : ℕ) where
  abbrev nine : Str
  nine = a ∷ b ∷ c ∷ d ∷ e ∷ f ∷ g ∷ h ∷ i ∷ []

  trim-nine : is_space a ≡ false → is_space i ≡ false → trim_space nine ≡ nine
  unfolding trim_space trim_left
  trim-nine first last = rw first (rw last refl)

  trim-pair : is_space i ≡ false → trim_space (lit "/pair " ++ nine) ≡ lit "/pair " ++ nine
  unfolding trim_space trim_left is_space
  trim-pair last = rw last refl

  upper-nine : (table : ℕ → ℕ) → All (λ c. is_plain c ≡ true) nine → to_upper table nine ≡ nine
  unfolding to_upper
  upper-nine table (pa, (pb, (pc, (pd, (pe, (pf, (pg, (ph, (pi, _))))))))) = ground (
    arith,
    upper-plain table a pa,
    upper-plain table b pb,
    upper-plain table c pc,
    upper-plain table d pd,
    upper-plain table e pe,
    upper-plain table f pf,
    upper-plain table g pg,
    upper-plain table h ph,
    upper-plain table i pi,
  )

  parse_pair-nine :
      (table : ℕ → ℕ)
      → trim_space nine ≡ nine
      → to_upper table nine ≡ nine
      → parse_trimmed table (lit "/pair " ++ nine) ≡ some (record { type = pair; code = nine })
  unfolding parse_trimmed parse_pair has_prefix
  parse_pair-nine table trimmed upper = rw (trimmed, upper) refl

  -- `parse_command` takes nine plain characters after `/pair ` as they are.
  parse-nine :
      (table : ℕ → ℕ)
      → All (λ c. is_plain c ≡ true) nine
      → parse_command table (lit "/pair " ++ nine) ≡ some (record { type = pair; code = nine })
  unfolding parse_command
  parse-nine table (pa, (pb, (pc, (pd, (pe, (pf, (pg, (ph, (pi, _))))))))) =
      rw (trim-pair (space-plain i pi)) (
        parse_pair-nine table (trim-nine (space-plain a pa) (space-plain i pi))
          (upper-nine table (pa, (pb, (pc, (pd, (pe, (pf, (pg, (ph, (pi, tt)))))))))))

drawn-plain : (n : ℕ) (draws : List ℕ) → All (λ c. is_plain c ≡ true) (draw_chars n draws).0
unfolding draw_chars
drawn-plain zero draws = tt
drawn-plain (suc n) draws = let (d, rest) = next 0 draws in (code_char-plain d, drawn-plain n rest)

-- Every drawn code has nine characters, and a chat message with `/pair ` before it is the pairing
-- command with exactly this code.
pub generated-parses :
    (table : ℕ → ℕ) (w w' : World) (code : Str)
    → generate_session_pairing_code w ≡ (ok code, w')
    → (length code ≡ 9)
      × (parse_command table (lit "/pair " ++ code) ≡ some (record { type = pair; code = code }))
unfolding generate_session_pairing_code draw_chars is_space
generated-parses table w w' code h =
    let (pa, (pb, (pc, (pd, _)))) = drawn-plain 4 w.draws in
    let (pf, (pg, (ph, (pi, _)))) = drawn-plain 4 (draw_chars 4 w.draws).1 in
    subst Accepted (made (ap (λ o. o.0) h)) (
      refl,
      parse-nine _ _ _ _ b'-' _ _ _ _ table
          (pa, (pb, (pc, (pd, (refl, (pf, (pg, (ph, (pi, tt))))))))),
    )
  where
    Accepted : Str → Type 0
    Accepted s =
        (length s ≡ 9)
        × (parse_command table (lit "/pair " ++ s) ≡ some (record { type = pair; code = s }))

    made : {a b : Str} → ◌≡◌ {A = Result Str} (ok a) (ok b) → a ≡ b
    made e = cc
