-- ===== src/Middleware/Signature/Acceptance.antt =====
-- Which requests `KakaoSignatureMiddleware` lets through.
use kakao_relay.Prelude.{
  Str, false, Option, none, some, ◌≡◌, refl, arith, ◌↔◌, is_empty, str_eq_iff,
}
use kakao_relay.Model.{Json}
use kakao_relay.Runtime.{Runtime, hmac}
use kakao_relay.Middleware.Signature.{SignedRequest, proceed, check_body, check_signature}

-- The signature is the HMAC of the body under the secret, and the body is JSON.
pub Genuine : Runtime → Str → SignedRequest → Json → Type 0
Genuine rt secret r json =
    (body : Str) × (r.body ≡ some body)
    × (hmac rt secret body ≡ r.signature)
    × (r.parsed ≡ some json)

body-Genuine :
    (rt : Runtime) (secret : Str) (r : SignedRequest) (json : Json) (o : Option Str)
    → r.body ≡ o
    → check_body rt secret r o ≡ proceed (some json)
    → Genuine rt secret r json
unfolding check_body Genuine
body-Genuine rt secret r json none e h = cc
body-Genuine rt secret r json (some body) e h = (
  body,
  e,
  ground (arith, str_eq_iff (hmac rt secret body) r.signature),
  ground (arith, str_eq_iff (hmac rt secret body) r.signature),
)

body-proceeds :
    (rt : Runtime) (secret : Str) (r : SignedRequest) (json : Json) (body : Str)
    → hmac rt secret body ≡ r.signature
    → r.parsed ≡ some json
    → check_body rt secret r (some body) ≡ proceed (some json)
unfolding check_body
body-proceeds rt secret r json body same parsed =
    ground (arith, str_eq_iff (hmac rt secret body) r.signature)

body-passes :
    (rt : Runtime) (secret : Str) (r : SignedRequest) (json : Json)
    → Genuine rt secret r json
    → check_body rt secret r r.body ≡ proceed (some json)
unfolding Genuine check_body
body-passes rt secret r json (body, is, same, parsed) =
    rw is (body-proceeds rt secret r json body same parsed)

-- With a secret, a request passes with a payload exactly when it has a signature, its body could
-- be read, the signature is the HMAC of the body, and the body is that payload as JSON.
pub check_signature_iff :
    (rt : Runtime) (secret : Str) (r : SignedRequest) (json : Json)
    → is_empty secret ≡ false
    → (check_signature rt secret r ≡ proceed (some json))
      ↔ ((is_empty r.signature ≡ false) × Genuine rt secret r json)
unfolding check_signature
check_signature_iff rt secret r json set = (
  λ h. ground (arith, h, body-Genuine rt secret r json r.body refl),
  λ (signed, genuine). rw (set, signed) (body-passes rt secret r json genuine),
)
