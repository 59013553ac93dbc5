-- ===== src/Middleware/Window.antt =====
-- A sliding window over times of admission: what both rate limiters promise.
pub mod Laws
use kakao_relay.Prelude.{ℕ, ◌+◌, Bool, List, [], ◌∷◌, ◌++◌, length, select, ltb, if◌then◌else◌}

-- `t` is less than `window` ago.
abbrev pub is_live : ℕ → ℕ → ℕ → Bool
is_live window now t = ltb now (t + window)

unfoldable pub live : ℕ → ℕ → List ℕ → List ℕ
live window now ts = select (is_live window now) ts

-- The specification: a log of all admissions, none ever forgotten.
unfoldable pub admits : ℕ → ℕ → ℕ → List ℕ → Bool
unfolding live
admits window limit now log = ltb (length (live window now log)) limit

unfoldable pub admit : ℕ → ℕ → ℕ → List ℕ → List ℕ
unfolding admits
admit window limit now log = if admits window limit now log then log ++ now ∷ [] else log
