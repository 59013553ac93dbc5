-- ===== src/Util/Encryption.antt =====
-- internal/util/encryption.go. AES-GCM (`crypto/aes`, `crypto/cipher`) is an argument: `Seal` and
-- `Open` of a key of 32 bytes and a nonce of 12. `NewCipher` and `NewGCM` fail for no such key, so
-- their error branches have no counterpart. An error keeps the program's own text without the text
-- of the library's error behind it.
pub mod RoundTrip
use kakao_relay.Prelude.{
  ℕ, Str, Option, none, some, List, ◌++◌, lit, ltb, ◌==◌, if◌then◌else◌, length, take, drop,
}
use kakao_relay.World.{World, Result, ok, err, M, fail, pure, next}
use kakao_relay.Util.Base64.{hex_decode, base64_encode, base64_decode}

-- `cipher.AEAD` of a key: key, nonce and text.
pub record Gcm : Type 0 where
  pub seal : List ℕ → List ℕ → List ℕ → List ℕ
  pub open_sealed : List ℕ → List ℕ → List ℕ → Option (List ℕ)

abbrev pub nonce_size : ℕ
nonce_size = 12

-- The key of both functions.
unfoldable pub key_of : Option (List ℕ) → Result (List ℕ)
key_of none = err (lit "decode encryption key")
key_of (some key) =
    if length key == 32 then ok key else err (lit "encryption key must be 32 bytes (64 hex chars)")

-- `io.ReadFull` of the random source fills the nonce or fails.
unfoldable pub draw_nonce : M (List ℕ)
draw_nonce w =
    let (bytes, rest) = next none w.random in
    let w' = record w { random = rest } in
    elim bytes [ none ↦ (err (lit "generate nonce"), w') | some bs ↦ (ok (take nonce_size bs), w') ]

abbrev pub sealed : Gcm → List ℕ → Str → Result (List ℕ) → Result Str
sealed gcm key plaintext (err e) = err e
sealed gcm key plaintext (ok nonce) = ok (base64_encode (nonce ++ gcm.seal key nonce plaintext))

abbrev pub encrypt_with : Gcm → Str → Result (List ℕ) → M Str
encrypt_with gcm plaintext (err e) w = (err e, w)
encrypt_with gcm plaintext (ok key) w =
    let (nonce, w') = draw_nonce w in (sealed gcm key plaintext nonce, w')

-- `Encrypt`
unfoldable pub encrypt : Gcm → Str → Str → M Str
unfolding key_of draw_nonce
encrypt gcm hex_key plaintext = encrypt_with gcm plaintext (key_of (hex_decode hex_key))

abbrev pub opened : Option (List ℕ) → Result Str
opened none = err (lit "decrypt")
opened (some plaintext) = ok plaintext

-- The nonce stands in front of the sealed text.
abbrev pub open_text : Gcm → List ℕ → Option (List ℕ) → Result Str
open_text gcm key none = err (lit "decode ciphertext")
open_text gcm key (some text) =
    if ltb (length text) nonce_size
    then err (lit "ciphertext too short")
    else opened (gcm.open_sealed key (take nonce_size text) (drop nonce_size text))

abbrev pub decrypt_with : Gcm → Str → Result (List ℕ) → Result Str
decrypt_with gcm encoded (err e) = err e
decrypt_with gcm encoded (ok key) = open_text gcm key (base64_decode encoded)

-- `Decrypt`
unfoldable pub decrypt : Gcm → Str → Str → Result Str
unfolding key_of
decrypt gcm hex_key encoded = decrypt_with gcm encoded (key_of (hex_decode hex_key))
