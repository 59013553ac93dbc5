-- ===== src/World.antt =====
-- What a request handler works on: the database, the clock, the random source, Redis pub/sub and
-- the HTTP client, and the monad of Go functions that return an error.
-- The environment enters as data: `db_faults` and `redis_faults` say which of the
-- coming calls fail and with what error text, `random`, `draws` and `uuids` what the random sources
-- return, and `replies` how the remote server answers. A handler sees one clock value.
use kakao_relay.Prelude.{
  ℕ, ◌+◌, ◌-◌, ◌/◌, ◌%◌, Str, Option, none, some, List, [], ◌∷◌, ◌++◌, lit, ltb, if◌then◌else◌,
}
use kakao_relay.Model.{Json, Account, ConversationMapping, InboundMessage, OutboundMessage, Session}

pub record Database : Type 0 where
  pub accounts : List Account
  pub sessions : List Session
  pub conversations : List ConversationMapping
  pub inbound : List InboundMessage
  pub outbound : List OutboundMessage

-- `sse.Event`
pub record Event : Type 0 where
  pub type : Str
  pub payload : Json

-- How `http.Client.Do` ends.
pub data HttpReply : Type 0 where
  refused : Str → HttpReply
  answered : ℕ → HttpReply

pub record World : Type 0 where
  pub db : Database
  pub now : ℕ
  pub db_faults : List (Option Str)
  pub redis_faults : List (Option Str)
  pub random : List (Option (List ℕ))
  pub draws : List ℕ
  pub uuids : List Str
  pub published : List (Str × Event)
  pub replies : List HttpReply
  pub posted : List (Str × Json)

pub data Result {ℓ} (A : Type ℓ) : Type ℓ where
  ok : A → Result A
  err : Str → Result A

-- A Go function with effects that returns `(T, error)`.
abbrev pub M : Type 0 → Type 0
M A = World → Result A × World

module _ {A : Type 0} where
  abbrev pub pure : A → M A
  pure a w = (ok a, w)

  abbrev pub fail : Str → M A
  fail e w = (err e, w)

  -- `fmt.Errorf("context: %w", err)`
  abbrev pub wrap : Str → Result A → Result A
  wrap context (ok a) = ok a
  wrap context (err e) = err (context ++ lit ": " ++ e)

  abbrev pub wrapped : Str → M A → M A
  wrapped context m w = let (r, w') = m w in (wrap context r, w')

module _ {A B : Type 0} where
  abbrev pub continue : (A → M B) → Result A → World → Result B × World
  continue f (ok a) w = f a w
  continue f (err e) w = (err e, w)

  infixl 5 ◌>>=◌ ◌>>◌
  abbrev pub ◌>>=◌ : M A → (A → M B) → M B
  ◌>>=◌ m f w = let (r, w') = m w in continue f r w'

  abbrev pub ◌>>◌ : M A → M B → M B
  m >> n = m >>= λ _. n

  -- `r, err := m()`: the error is a value for the code that follows.
  abbrev pub ◌>>=?◌ : M A → (Result A → M B) → M B
  ◌>>=?◌ m f w = let (r, w') = m w in f r w'

-- The head of a schedule, with a default when it has run out.
abbrev pub next {ℓ} : {A : Type ℓ} → A → List A → A × List A
next d [] = (d, [])
next d (x ∷ xs) = (x, xs)

-- The world after a call that changes no row: the schedule has moved on.
abbrev pub after : World → World
after w = record w { db_faults = (next none w.db_faults).1 }

module _ {A : Type 0} where
  abbrev pub run_call : Option Str → (World → Result A × Database) → World → Result A × World
  run_call (some e) run w = (err e, w)
  run_call none run w = ((run w).0, record w { db = (run w).1 })

  -- One database call: it fails and changes nothing, or runs.
  unfoldable pub db_call : (World → Result A × Database) → M A
  db_call run w = run_call (next none w.db_faults).0 run (after w)

-- `gen_random_uuid()`; an exhausted source returns "".
unfoldable pub draw_uuid : M Str
draw_uuid w = let (u, rest) = next [] w.uuids in (ok u, record w { uuids = rest })

-- One digit and one byte of `hex.EncodeToString`.
unfoldable pub hex_digit : ℕ → ℕ
hex_digit d = if ltb d 10 then b'0' + d else b'a' + (d - 10)

unfoldable pub hex_encode : List ℕ → Str
unfolding hex_digit
hex_encode [] = []
hex_encode (b ∷ bs) = hex_digit (b / 16) ∷ hex_digit (b % 16) ∷ hex_encode bs

-- `util.GenerateToken`: `rand.Read` fills 32 bytes or fails, and the token is their hex form.
unfoldable pub generate_token : M Str
unfolding hex_encode
generate_token w =
    let (bytes, rest) = next none w.random in
    let w' = record w { random = rest } in
    elim bytes [ none ↦ (err (lit "read random bytes"), w') | some bs ↦ (ok (hex_encode bs), w') ]
