-- ===== src/Errors/Answers.antt =====
-- What `WriteError` of internal/httputil/response.go answers.
use kakao_relay.Prelude.{
  ◌≤◌, ◌<◌, Str, Option, none, some, ◌≡◌, refl, sym, subst, List, [], ◌∷◌, arith,
}
use kakao_relay.Errors.{
  ErrorCode, AppError, GoError, app, other, within, ErrorResponse, Response, write_error,
  as_app_error, get_code, code_of, or_unexpected, unexpected, error_response, status_from_code,
}

-- Every code has a status of a client's or a server's error.
pub status_from_code-bounds :
    (c : ErrorCode) → (400 ≤ status_from_code c) × (status_from_code c < 600)
unfolding status_from_code
status_from_code-bounds c = ground arith

-- The program's own error inside any number of `fmt.Errorf` contexts.
unfoldable pub in_contexts : List Str → GoError → GoError
in_contexts [] e = e
in_contexts (c ∷ cs) e = within c (in_contexts cs e)

as_app_error-in_contexts :
    (cs : List Str) (e : GoError) → as_app_error (in_contexts cs e) ≡ as_app_error e
unfolding as_app_error in_contexts
as_app_error-in_contexts [] e = refl
as_app_error-in_contexts (c ∷ cs) e = as_app_error-in_contexts cs e

-- An answer that shows the error `a` with its own code, under a status from 400 to 599.
pub record Shows (a : AppError) (answer : Response ErrorResponse) : Type 0 where
  pub status_lower : 400 ≤ answer.status
  pub status_upper : answer.status < 600
  pub status_of_code : answer.status ≡ status_from_code a.code
  pub shown : answer.body ≡ record { error = a.message; code = a.code; details = a.details }

Shows-error_response : (a : AppError) → Shows a (error_response a)
Shows-error_response a = record {
  status_lower = (status_from_code-bounds a.code).0;
  status_upper = (status_from_code-bounds a.code).1;
  status_of_code = refl;
  shown = refl;
}

body_code : (o : Option AppError) → (error_response (or_unexpected o)).body.code ≡ code_of o
unfolding code_of
body_code none = refl
body_code (some a) = refl

-- An error of the program inside any contexts is answered with its own message, code and details
-- and the status of the code, from 400 to 599; any other error, in any contexts, is answered as
-- the internal error with a fixed message, whatever its text is. In both cases the code of the
-- answer is `GetCode` of the error.
pub write_error-Shows :
    (cs : List Str) (a : AppError) (text : Str) (e : GoError)
    → Shows a (write_error (in_contexts cs (app a)))
      × Shows unexpected (write_error (in_contexts cs (other text)))
      × ((write_error e).body.code ≡ get_code e)
unfolding write_error get_code as_app_error code_of
write_error-Shows cs a text e = (
  subst (λ o. Shows a (error_response (or_unexpected o)))
      (sym (as_app_error-in_contexts cs (app a))) (Shows-error_response a),
  subst (λ o. Shows unexpected (error_response (or_unexpected o)))
      (sym (as_app_error-in_contexts cs (other text))) (Shows-error_response unexpected),
  body_code (as_app_error e),
)
