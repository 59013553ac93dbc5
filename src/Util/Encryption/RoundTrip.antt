-- ===== src/Util/Encryption/RoundTrip.antt =====
-- internal/util/encryption.go: what `Encrypt` writes is read by `Decrypt` under the same key.
use kakao_relay.Prelude.{
  ℕ, zero, suc, subst, ◌≤◌, ◌≡◌, refl, ap, Str, true, false, none, some, List, [], ◌∷◌, ◌++◌, ltb,
  ◌==◌, length, take, drop, arith,
}
use kakao_relay.World.{World, ok, next}
use kakao_relay.Util.Base64.{IsBytes, hex_decode, base64_encode}
use kakao_relay.Util.Base64.RoundTrip.{base64_decode-encode}
use kakao_relay.Util.Encryption.{Gcm, encrypt, decrypt, key_of, draw_nonce, nonce_size, open_text}

length-take : (n : ℕ) (bs : List ℕ) → n ≤ length bs → length (take n bs) ≡ n
length-take zero bs h = refl
length-take (suc n) [] h = omega arith
length-take (suc n) (b ∷ bs) h = ap suc (length-take n bs (omega arith))

IsBytes-take : (n : ℕ) (bs : List ℕ) → IsBytes bs → IsBytes (take n bs)
unfolding IsBytes
IsBytes-take zero bs h = tt
IsBytes-take (suc n) [] h = tt
IsBytes-take (suc n) (b ∷ bs) (p, h) = (p, IsBytes-take n bs h)

IsBytes-append : (bs cs : List ℕ) → IsBytes bs → IsBytes cs → IsBytes (bs ++ cs)
unfolding IsBytes
IsBytes-append [] cs h k = k
IsBytes-append (b ∷ bs) cs (p, h) k = (p, IsBytes-append bs cs h k)

split_append :
    (bs cs : List ℕ)
    → (take (length bs) (bs ++ cs) ≡ bs)
      × (drop (length bs) (bs ++ cs) ≡ cs)
      × (length bs ≤ length (bs ++ cs))
split_append [] cs = (refl, refl, omega arith)
split_append (b ∷ bs) cs = let (p, q, r) = split_append bs cs in (ap (λ t. b ∷ t) p, q, omega arith)

-- What the program relies on, for keys of 32 bytes and nonces of 12: opening a sealed text gives it
-- back, and sealing yields bytes.
pub record IsGcm (gcm : Gcm) : Type 0 where
  pub opens :
      (key nonce text : List ℕ)
      → length key ≡ 32
      → length nonce ≡ nonce_size
      → IsBytes text
      → gcm.open_sealed key nonce (gcm.seal key nonce text) ≡ some text
  pub bytes :
      (key nonce text : List ℕ)
      → length key ≡ 32
      → length nonce ≡ nonce_size
      → IsBytes text
      → IsBytes (gcm.seal key nonce text)

key_of-accepts :
    (hex_key : Str) (key : List ℕ)
    → hex_decode hex_key ≡ some key
    → length key ≡ 32
    → key_of (hex_decode hex_key) ≡ ok key
unfolding key_of
key_of-accepts hex_key key h k =
    let same : (length key == 32) ≡ true = ground (arith, k) in rw (h, same) refl

draw_nonce-Fills :
    (w : World) (random : List ℕ)
    → (next none w.random).0 ≡ some random
    → (draw_nonce w).0 ≡ ok (take nonce_size random)
unfolding draw_nonce
draw_nonce-Fills w random h = ground (arith, h)

module _ (gcm : Gcm) (law : IsGcm gcm) where
  open_text-sealed :
      (key nonce : List ℕ) (text : Str)
      → length key ≡ 32
      → length nonce ≡ nonce_size
      → IsBytes text
      → open_text gcm key (some (nonce ++ gcm.seal key nonce text)) ≡ ok text
  open_text-sealed key nonce text k h t_bytes =
      let (p, q, r) = split_append nonce (gcm.seal key nonce text) in
      let t : take nonce_size (nonce ++ gcm.seal key nonce text) ≡ nonce =
        subst (λ n. take n (nonce ++ gcm.seal key nonce text) ≡ nonce) h p in
      let d : drop nonce_size (nonce ++ gcm.seal key nonce text) ≡ gcm.seal key nonce text =
        subst (λ n. drop n (nonce ++ gcm.seal key nonce text) ≡ gcm.seal key nonce text) h q in
      let long : ltb (length (nonce ++ gcm.seal key nonce text)) nonce_size ≡ false =
        ground arith in
      rw (long, t, d, law.opens key nonce text k h t_bytes) refl

  -- With a hex key of 32 bytes and a random source that has at least 12 bytes, `Encrypt` succeeds,
  -- and `Decrypt` under the same key gives the plaintext back.
  pub decrypt-encrypt :
      (hex_key : Str) (key : List ℕ) (plaintext : Str) (random : List ℕ) (w : World)
      → hex_decode hex_key ≡ some key
      → length key ≡ 32
      → (next none w.random).0 ≡ some random
      → nonce_size ≤ length random
      → IsBytes random
      → IsBytes plaintext
      → (encoded : Str) × ((encrypt gcm hex_key plaintext w).0 ≡ ok encoded)
        × (decrypt gcm hex_key encoded ≡ ok plaintext)
  unfolding encrypt decrypt
  decrypt-encrypt hex_key key plaintext random w hk h32 hr enough hb hp =
      let nonce = take nonce_size random in
      let filled = length-take nonce_size random enough in
      let full : List ℕ = nonce ++ gcm.seal key nonce plaintext in
      let bytes : IsBytes full =
        IsBytes-append nonce (gcm.seal key nonce plaintext) (IsBytes-take nonce_size random hb)
          (law.bytes key nonce plaintext h32 filled hp) in
      let hex = key_of-accepts hex_key key hk h32 in
      (
        base64_encode full,
        rw (hex, draw_nonce-Fills w random hr) refl,
        rw (hex, base64_decode-encode full bytes)
            (open_text-sealed key nonce plaintext h32 filled hp),
      )
