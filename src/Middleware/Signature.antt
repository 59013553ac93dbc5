-- ===== src/Middleware/Signature.antt =====
-- internal/middleware/kakao.go
pub mod Acceptance
use kakao_relay.Prelude.{ℕ, Str, Option, none, some, is_empty, if◌then◌else◌}
use kakao_relay.Model.{Json}
use kakao_relay.Runtime.{Runtime, hmac, constant_time_equal}

-- The request: the signature header, "" if absent, and the body, if it can be read. What
-- `json.Unmarshal` makes of the body is an argument.
pub record SignedRequest : Type 0 where
  pub signature : Str
  pub body : Option Str
  pub parsed : Option Json

pub data SignatureOutcome : Type 0 where
  refused : ℕ → SignatureOutcome
  proceed : Option Json → SignatureOutcome

abbrev pub parsed_outcome : Option Json → SignatureOutcome
parsed_outcome none = refused 400
parsed_outcome (some j) = proceed (some j)

unfoldable pub check_body : Runtime → Str → SignedRequest → Option Str → SignatureOutcome
check_body rt secret r none = refused 500
check_body rt secret r (some body) =
    if constant_time_equal (hmac rt secret body) r.signature
    then parsed_outcome r.parsed
    else refused 401

-- `KakaoSignatureMiddleware.Handler`: without a secret every request passes.
unfoldable pub check_signature : Runtime → Str → SignedRequest → SignatureOutcome
unfolding check_body
check_signature rt secret r =
    if is_empty secret
    then proceed none
    else if is_empty r.signature
    then refused 401
    else check_body rt secret r r.body
