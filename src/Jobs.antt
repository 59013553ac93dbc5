-- ===== src/Jobs.antt =====
-- internal/jobs/cleanup.go
pub mod Sweep
use kakao_relay.Prelude.{ℕ, Bool, true, false, List, [], ◌∷◌}
use kakao_relay.World.{World, M}
use kakao_relay.Repository.Inbound
use kakao_relay.Repository.Sessions

-- `runCleanup`: the count and the error are logged only.
abbrev pub run_cleanup : M ℕ → World → World
run_cleanup fn w = (fn w).1

-- `cleanup`, with a session repository or without one.
unfoldable pub cleanup : Bool → World → World
cleanup true w = run_cleanup Sessions.delete_expired (run_cleanup Inbound.mark_expired w)
cleanup false w = run_cleanup Inbound.mark_expired w

-- What the loop of `run` waits for: a tick, with what other requests and the clock have made of
-- the world by then, or `Stop`.
pub data Signal : Type 0 where
  tick : (World → World) → Signal
  done : Signal

unfoldable pub run_loop : Bool → List Signal → World → World
run_loop has_sessions [] w = w
run_loop has_sessions (done ∷ rest) w = w
run_loop has_sessions (tick others ∷ rest) w =
    run_loop has_sessions rest (cleanup has_sessions (others w))

-- `run`: one cleanup at the start, then one for each tick.
unfoldable pub run : Bool → List Signal → World → World
unfolding cleanup run_loop
run has_sessions signals w = run_loop has_sessions signals (cleanup has_sessions w)
