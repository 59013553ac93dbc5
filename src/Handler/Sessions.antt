-- ===== src/Handler/Sessions.antt =====
-- internal/handler/session.go
use kakao_relay.Prelude.{ℕ, Str, Option, none, some, is_empty, if◌then◌else◌}
use kakao_relay.World.{World, Result, ok, err}
use kakao_relay.Runtime.{Runtime, hash_token}
use kakao_relay.Service.Session.{
  CreateSessionResult, SessionStatusResult, create_session, get_status,
}

pub data SessionAnswer (A : Type 0) : Type 0 where
  answer : A → SessionAnswer A
  error : ℕ → SessionAnswer A

abbrev pub created : Result CreateSessionResult → SessionAnswer CreateSessionResult
created (ok r) = answer r
created (err _) = error 500

-- `CreateSession`
unfoldable pub handle_create : Runtime → World → SessionAnswer CreateSessionResult × World
handle_create rt w = let (r, w') = create_session rt w in (created r, w')

abbrev pub status_answer : Result (Option SessionStatusResult) → SessionAnswer SessionStatusResult
status_answer (err _) = error 500
status_answer (ok none) = error 404
status_answer (ok (some r)) = answer r

-- `GetSessionStatus`
unfoldable pub handle_status : Runtime → Str → World → SessionAnswer SessionStatusResult × World
handle_status rt token w =
    if is_empty token
    then (error 400, w)
    else (let (r, w') = get_status (hash_token rt token) w in (status_answer r, w'))
