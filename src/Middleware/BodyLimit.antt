-- ===== src/Middleware/BodyLimit.antt =====
-- internal/middleware/bodylimit.go
use kakao_relay.Prelude.{
  ℕ, ◌^◌, Bool, Option, none, some, ltb, leb, if◌then◌else◌, length, take, List,
}
use kakao_relay.Model.{ℤ, pos, negsuc}

abbrev pub default_max_body_size : ℕ
default_max_body_size = 2 ^ 20

-- `NewBodyLimitMiddleware`: a size that is not positive takes the default.
unfoldable pub new_body_limit : ℤ → ℕ
new_body_limit (pos n) = if leb n 0 then default_max_body_size else n
new_body_limit (negsuc n) = default_max_body_size

-- A declared length; -1, `none` here, says that it is not known.
abbrev pub exceeds : Option ℕ → ℕ → Bool
exceeds none max_size = Bool.false
exceeds (some n) max_size = ltb max_size n

-- What `Handler` gives the next handler to read: 413 (`none`), or the body with the error of
-- `MaxBytesReader` behind its first `max_size` bytes if it is longer.
unfoldable pub limit_body : ℕ → Option ℕ → List ℕ → Option (List ℕ × Bool)
limit_body max_size declared body =
    if exceeds declared max_size
    then none
    else some (take max_size body, ltb max_size (length body))
