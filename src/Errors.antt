-- ===== src/Errors.antt =====
-- internal/errors/errors.go and internal/httputil/response.go.
pub mod Answers
use kakao_relay.Prelude.{ℕ, Str, Bool, true, false, Option, none, some, [], lit, ◌++◌}
use kakao_relay.Model.{Json}

pub data ErrorCode : Type 0 where
  unauthorized forbidden invalid_token token_expired session_not_paired : ErrorCode
  validation invalid_input missing_required : ErrorCode
  not_found already_exists conflict : ErrorCode
  invalid_pairing_code pairing_expired already_paired : ErrorCode
  rate_limit_exceeded : ErrorCode
  callback_expired callback_failed : ErrorCode
  internal database external : ErrorCode

-- The text of a code, `ErrorCode` being a string.
unfoldable pub code_text : ErrorCode → Str
code_text unauthorized = lit "UNAUTHORIZED"
code_text forbidden = lit "FORBIDDEN"
code_text invalid_token = lit "INVALID_TOKEN"
code_text token_expired = lit "TOKEN_EXPIRED"
code_text session_not_paired = lit "SESSION_NOT_PAIRED"
code_text validation = lit "VALIDATION_ERROR"
code_text invalid_input = lit "INVALID_INPUT"
code_text missing_required = lit "MISSING_REQUIRED"
code_text not_found = lit "NOT_FOUND"
code_text already_exists = lit "ALREADY_EXISTS"
code_text conflict = lit "CONFLICT"
code_text invalid_pairing_code = lit "INVALID_PAIRING_CODE"
code_text pairing_expired = lit "PAIRING_EXPIRED"
code_text already_paired = lit "ALREADY_PAIRED"
code_text rate_limit_exceeded = lit "RATE_LIMIT_EXCEEDED"
code_text callback_expired = lit "CALLBACK_EXPIRED"
code_text callback_failed = lit "CALLBACK_FAILED"
code_text internal = lit "INTERNAL_ERROR"
code_text database = lit "DATABASE_ERROR"
code_text external = lit "EXTERNAL_SERVICE_ERROR"

-- An `AppError`; the cause is kept as the text of its `Error()`.
pub record AppError : Type 0 where
  pub code : ErrorCode
  pub message : Str
  pub details : Option Json
  pub cause : Option Str

-- `New` and `Wrap`
abbrev pub new : ErrorCode → Str → AppError
new code message = record { code = code; message = message; details = none; cause = none }

abbrev pub wrap : ErrorCode → Str → Str → AppError
wrap code message cause = record {
  code = code;
  message = message;
  details = none;
  cause = some cause;
}

-- `WithCause` and `WithDetails`
abbrev pub with_cause : AppError → Str → AppError
with_cause e cause = record e { cause = some cause }

abbrev pub with_details : AppError → Json → AppError
with_details e details = record e { details = some details }

abbrev pub cause_text : Option Str → Str
cause_text none = []
cause_text (some c) = lit " (cause: " ++ c ++ lit ")"

-- `Error` and `Unwrap`
unfoldable pub error_text : AppError → Str
unfolding code_text
error_text e = code_text e.code ++ lit ": " ++ e.message ++ cause_text e.cause

abbrev pub unwrap : AppError → Option Str
unwrap e = e.cause

-- An `error`: one of the program's, another one, or `fmt.Errorf("context: %w", e)`.
pub data GoError : Type 0 where
  app : AppError → GoError
  other : Str → GoError
  within : Str → GoError → GoError

-- `AsAppError`: `errors.As` goes down the wrapped errors.
unfoldable pub as_app_error : GoError → Option AppError
as_app_error (app e) = some e
as_app_error (other _) = none
as_app_error (within _ e) = as_app_error e

-- `IsAppError`
unfoldable pub is_app_error : GoError → Bool
is_app_error (app _) = true
is_app_error (other _) = false
is_app_error (within _ e) = is_app_error e

unfoldable pub code_of : Option AppError → ErrorCode
code_of (some e) = e.code
code_of none = internal

-- `GetCode`
unfoldable pub get_code : GoError → ErrorCode
unfolding as_app_error code_of
get_code e = code_of (as_app_error e)

-- `statusFromCode`
unfoldable pub status_from_code : ErrorCode → ℕ
status_from_code validation = 400
status_from_code invalid_input = 400
status_from_code missing_required = 400
status_from_code invalid_pairing_code = 400
status_from_code pairing_expired = 400
status_from_code callback_expired = 400
status_from_code unauthorized = 401
status_from_code invalid_token = 401
status_from_code token_expired = 401
status_from_code session_not_paired = 401
status_from_code forbidden = 403
status_from_code not_found = 404
status_from_code already_exists = 409
status_from_code conflict = 409
status_from_code already_paired = 409
status_from_code rate_limit_exceeded = 429
status_from_code callback_failed = 502
status_from_code external = 502
status_from_code internal = 500
status_from_code database = 500

-- A JSON answer: the status and the body.
pub record Response (A : Type 0) : Type 0 where
  pub status : ℕ
  pub body : A

-- `ErrorResponse`
pub record ErrorResponse : Type 0 where
  pub error : Str
  pub code : ErrorCode
  pub details : Option Json

abbrev pub unexpected : AppError
unexpected = new internal (lit "An unexpected error occurred")

abbrev pub or_unexpected : Option AppError → AppError
or_unexpected (some e) = e
or_unexpected none = unexpected

-- `WriteErrorWithStatus`
abbrev pub write_error_with_status : ℕ → AppError → Response ErrorResponse
write_error_with_status status e = record {
  status = status;
  body = record { error = e.message; code = e.code; details = e.details };
}

abbrev pub error_response : AppError → Response ErrorResponse
error_response e = record {
  status = status_from_code e.code;
  body = record { error = e.message; code = e.code; details = e.details };
}

-- `WriteError`
unfoldable pub write_error : GoError → Response ErrorResponse
unfolding as_app_error status_from_code
write_error e = error_response (or_unexpected (as_app_error e))

-- The constructors.
abbrev pub unauthorized_error : Str → AppError
unauthorized_error message = new unauthorized message

abbrev pub forbidden_error : Str → AppError
forbidden_error message = new forbidden message

abbrev pub invalid_token_error : Str → AppError
invalid_token_error message = new invalid_token message

abbrev pub session_not_paired_error : AppError
session_not_paired_error = new session_not_paired (lit "Session not paired")

abbrev pub not_found_error : Str → AppError
not_found_error resource = new not_found (resource ++ lit " not found")

abbrev pub validation_error : Str → AppError
validation_error message = new validation message

abbrev pub missing_required_error : Str → AppError
missing_required_error name = new missing_required (name ++ lit " is required")

abbrev pub callback_expired_error : AppError
callback_expired_error = new callback_expired (lit "Callback URL expired or not available")

abbrev pub callback_failed_error : Str → AppError
callback_failed_error reason = new callback_failed (lit "Failed to send callback: " ++ reason)

abbrev pub database_error : Str → AppError
database_error cause = wrap database (lit "Database error") cause

abbrev pub already_exists_error : Str → AppError
already_exists_error resource = new already_exists (resource ++ lit " already exists")

abbrev pub invalid_input_error : Str → Str → AppError
invalid_input_error name reason = new invalid_input (lit "Invalid " ++ name ++ lit ": " ++ reason)

abbrev pub invalid_pairing_code_error : AppError
invalid_pairing_code_error = new invalid_pairing_code (lit "Invalid or expired pairing code")

abbrev pub pairing_expired_error : AppError
pairing_expired_error = new pairing_expired (lit "Pairing code has expired")

abbrev pub already_paired_error : AppError
already_paired_error = new already_paired (lit "Session is already paired")

abbrev pub rate_limit_exceeded_error : AppError
rate_limit_exceeded_error = new rate_limit_exceeded (lit "Rate limit exceeded")

abbrev pub internal_error : Str → AppError
internal_error message = new internal message

abbrev pub external_error : Str → Str → AppError
external_error service cause = wrap external (lit "External service error: " ++ service) cause
