-- ===== src/Util/Base64/RoundTrip.antt =====
-- Decoding what `EncodeToString` wrote gives the bytes back.
use kakao_relay.Prelude.{
  ℕ, ◌+◌, ◌*◌, ◌/◌, ◌%◌, ◌<◌, ◌≡◌, refl, ap, ◌∙◌, false, some, List, [], ◌∷◌, ◌==◌, ◌||◌, arith,
}
use kakao_relay.Util.Base64.{
  IsBytes, base64_char, base64_value, base64_encode, base64_decode, skip_newlines, decode_quads,
  last_quad,
}

base64_value-char : (n : ℕ) → n < 64 → base64_value (base64_char n) ≡ some n
unfolding base64_char base64_value
base64_value-char n h = ground arith

-- A character of the alphabet is no newline and no padding.
base64_char-plain :
    (n : ℕ)
    → n < 64
    → ((base64_char n == 10) ≡ false)
      × ((base64_char n == 13) ≡ false)
      × ((base64_char n == b'=') ≡ false)
unfolding base64_char
base64_char-plain n h = ground arith

quad-step :
    (p q r s : ℕ) (t : List ℕ) (bs : List ℕ)
    → p < 64
    → q < 64
    → r < 64
    → s < 64
    → decode_quads t ≡ some bs
    → decode_quads (base64_char p ∷ base64_char q ∷ base64_char r ∷ base64_char s ∷ t)
      ≡ some ((p * 4 + q / 16) ∷ (q % 16 * 16 + r / 4) ∷ (r % 4 * 64 + s) ∷ bs)
unfolding decode_quads last_quad
quad-step p q r s [] bs hp hq hr hs e =
    rw
      (
        (base64_char-plain s hs).2,
        base64_value-char p hp,
        base64_value-char q hq,
        base64_value-char r hr,
        base64_value-char s hs,
      )
      (cc)
quad-step p q r s (t ∷ ts) bs hp hq hr hs e =
    rw
      (
        e,
        base64_value-char p hp,
        base64_value-char q hq,
        base64_value-char r hr,
        base64_value-char s hs,
      )
      refl

triple :
    (a b c : ℕ) (bs : List ℕ)
    → a < 256
    → b < 256
    → c < 256
    → ◌≡◌ {A = List ℕ}
        ((a / 4 * 4 + (a % 4 * 16 + b / 16) / 16)
          ∷ ((a % 4 * 16 + b / 16) % 16 * 16 + (b % 16 * 4 + c / 64) / 4)
          ∷ ((b % 16 * 4 + c / 64) % 4 * 64 + c % 64)
          ∷ bs)
        (a ∷ b ∷ c ∷ bs)
triple a b c bs ha hb hc =
    let e1 : a / 4 * 4 + (a % 4 * 16 + b / 16) / 16 ≡ a = omega arith in
    let e2 : (a % 4 * 16 + b / 16) % 16 * 16 + (b % 16 * 4 + c / 64) / 4 ≡ b = omega arith in
    let e3 : (b % 16 * 4 + c / 64) % 4 * 64 + c % 64 ≡ c = omega arith in cc

decode_quads-encode : (bs : List ℕ) → IsBytes bs → decode_quads (base64_encode bs) ≡ some bs
unfolding IsBytes base64_encode decode_quads last_quad
decode_quads-encode [] h = refl
decode_quads-encode (a ∷ []) (ha, h) =
    let e : a / 4 * 4 + (a % 4 * 16) / 16 ≡ a = omega arith in
    rw (base64_value-char (a / 4) (omega arith), base64_value-char (a % 4 * 16) (omega arith), e)
      refl
decode_quads-encode (a ∷ b ∷ []) (ha, (hb, h)) =
    let e1 : a / 4 * 4 + (a % 4 * 16 + b / 16) / 16 ≡ a = omega arith in
    let e2 : (a % 4 * 16 + b / 16) % 16 * 16 + (b % 16 * 4) / 4 ≡ b = omega arith in
    rw
      (
        (base64_char-plain (b % 16 * 4) (omega arith)).2,
        base64_value-char (a / 4) (omega arith),
        base64_value-char (a % 4 * 16 + b / 16) (omega arith),
        base64_value-char (b % 16 * 4) (omega arith),
        e1,
        e2,
      )
      refl
decode_quads-encode (a ∷ b ∷ c ∷ bs) (ha, (hb, (hc, h))) =
    quad-step (a / 4) (a % 4 * 16 + b / 16) (b % 16 * 4 + c / 64) (c % 64) (base64_encode bs) bs
      (omega arith) (omega arith) (omega arith) (omega arith) (decode_quads-encode bs h)
    ∙ ap some (triple a b c bs ha hb hc)

-- No character is skipped by the decoder.
abbrev IsSolid : List ℕ → Type 0
IsSolid [] = Unit {0}
IsSolid (c ∷ s) = ((c == 10 || c == 13) ≡ false) × IsSolid s

skip_newlines-solid : (s : List ℕ) → IsSolid s → skip_newlines s ≡ s
unfolding skip_newlines
skip_newlines-solid [] h = refl
skip_newlines-solid (c ∷ s) (p, h) = rw (p, skip_newlines-solid s h) refl

no_newline : (n : ℕ) → n < 64 → (base64_char n == 10 || base64_char n == 13) ≡ false
no_newline n h = let (p, q, r) = base64_char-plain n h in ground (arith, p, q)

base64_encode-IsSolid : (bs : List ℕ) → IsBytes bs → IsSolid (base64_encode bs)
unfolding IsBytes base64_encode
base64_encode-IsSolid [] h = tt
base64_encode-IsSolid (a ∷ []) (ha, h) =
    (no_newline (a / 4) (omega arith), (no_newline (a % 4 * 16) (omega arith), (refl, (refl, tt))))
base64_encode-IsSolid (a ∷ b ∷ []) (ha, (hb, h)) = (
  no_newline (a / 4) (omega arith),
  (
    no_newline (a % 4 * 16 + b / 16) (omega arith),
    (no_newline (b % 16 * 4) (omega arith), (refl, tt)),
  ),
)
base64_encode-IsSolid (a ∷ b ∷ c ∷ bs) (ha, (hb, (hc, h))) = (
  no_newline (a / 4) (omega arith),
  (
    no_newline (a % 4 * 16 + b / 16) (omega arith),
    (
      no_newline (b % 16 * 4 + c / 64) (omega arith),
      (no_newline (c % 64) (omega arith), base64_encode-IsSolid bs h),
    ),
  ),
)

pub base64_decode-encode : (bs : List ℕ) → IsBytes bs → base64_decode (base64_encode bs) ≡ some bs
unfolding base64_decode
base64_decode-encode bs h =
    rw (skip_newlines-solid (base64_encode bs) (base64_encode-IsSolid bs h))
      (decode_quads-encode bs h)
