-- ===== src/Middleware/Window/Laws.antt =====
-- Laws of the sliding window, and its promise: never more than the limit within a window.
use kakao_relay.Prelude.{
  ℕ, ◌≤◌, ◌<◌, true, List, [], ◌∷◌, ◌++◌, length, ◌≡◌, arith, length-append, Bool-cases, inl, inr,
  select-append, select, ltb→lt, select-select, length-select_mono,
}
use kakao_relay.Middleware.Window.{is_live, live, admits, admit}

pub live-append :
    (window now : ℕ) (xs ys : List ℕ)
    → live window now (xs ++ ys) ≡ live window now xs ++ live window now ys
unfolding live
live-append window now xs ys = select-append (is_live window now) xs ys

is_live_earlier :
    (window now later t : ℕ)
    → now ≤ later
    → is_live window later t ≡ true
    → is_live window now t ≡ true
is_live_earlier window now later t h l = ground arith

-- What is dropped at one time is dead at every later one.
pub live-live :
    (window now later : ℕ) (ts : List ℕ)
    → now ≤ later
    → live window later (live window now ts) ≡ live window later ts
unfolding live
live-live window now later ts h =
    select-select (is_live window later) (is_live window now)
      (λ t. is_live_earlier window now later t h) ts

pub length-live_mono :
    (window now later : ℕ) (ts : List ℕ)
    → now ≤ later
    → length (live window later ts) ≤ length (live window now ts)
unfolding live
length-live_mono window now later ts h =
    length-select_mono (is_live window later) (is_live window now)
      (λ t. is_live_earlier window now later t h) ts

length-live-one : (window now t : ℕ) → length (live window now (t ∷ [])) ≤ 1
unfolding live select
length-live-one window now t = ground arith

-- A request with a limit of at most `bound` keeps the number within the window at `bound`.
pub admit-le :
    (window limit bound now later : ℕ) (log : List ℕ)
    → now ≤ later
    → limit ≤ bound
    → length (live window now log) ≤ bound
    → length (live window later (admit window limit now log)) ≤ bound
unfolding admit
admit-le window limit bound now later log h fits within =
    elim (Bool-cases (admits window limit now log)) [
      | inl room ↦
          rw (room, live-append)
            (omega (
              arith,
              length-append (live window later log) (live window later (now ∷ [])),
              length-live_mono window now later log h,
              length-live-one window later now,
              below room,
            ))
      | inr full ↦ rw full (omega (arith, length-live_mono window now later log h))
    ]
  where
    below : admits window limit now log ≡ true → length (live window now log) < limit
    below = ltb→lt _ _
