-- ===== src/Server/Startup/Order.antt =====
-- cmd/server/main.go: the order of a run of `main`, and when it stops.
use kakao_relay.Prelude.{◌≡◌, refl, ◌↔◌, Str, List, [], ◌∷◌, ◌++◌, Bool, true, false, take, drop}
use kakao_relay.World.{Result, ok, err}
use kakao_relay.Config.{Config, load, validate}
use kakao_relay.Server.Startup.{
  Action, connect_db, ping_db, migrate_db, connect_redis, new_broker, start_cleanup, listen,
  shutdown_server, stop_cleanup, close_broker, close_redis, close_db, Waiting, server_failed,
  signalled, nothing, Environment, Exit, fatal, stopped, still_up, Run, main, must, wait,
  is_production,
}

-- The whole start, and the parts of it that are closed again.
abbrev pub starting : List Action
starting =
    connect_db ∷ ping_db ∷ migrate_db ∷ connect_redis ∷ new_broker ∷ start_cleanup ∷ listen ∷ []

abbrev pub closings : List Action → List Action
closings [] = []
closings (connect_db ∷ rest) = closings rest ++ close_db ∷ []
closings (connect_redis ∷ rest) = closings rest ++ close_redis ∷ []
closings (new_broker ∷ rest) = closings rest ++ close_broker ∷ []
closings (start_cleanup ∷ rest) = closings rest ++ stop_cleanup ∷ []
closings (_ ∷ rest) = closings rest

-- Every call succeeds, and a signal arrives.
pub Succeeds : Environment → Type 0
Succeeds env =
    ((cfg : Config) × (env.parsed ≡ ok cfg))
    × ((env.connected ≡ ok tt)
        × ((env.pinged ≡ ok tt)
            × ((env.migrated ≡ ok tt) × ((env.redis ≡ ok tt) × (env.waiting ≡ signalled)))))

-- A run that goes on has done the whole start. A fatal end has done a part of the start and nothing else; a stop has done all of it, has shut the
-- server down, and has closed what the start opened, the last part first.
pub Orderly : Exit → List Action → Type 0
Orderly (fatal m c) actions = (rest : List Action) × (actions ++ rest ≡ starting)
Orderly still_up actions = actions ≡ starting
Orderly stopped actions = actions ≡ starting ++ shutdown_server ∷ closings starting

module _ {A : Type 0} where
  must-Orderly :
      (message : Str) (r : Result A) (next : A → List Action → Run) (done left : List Action)
      → done ++ left ≡ starting
      → ((a : A) → Orderly (next a done).exit (next a done).actions)
      → Orderly (must message r next done).exit (must message r next done).actions
  must-Orderly message (ok a) next done left part h = h a
  must-Orderly message (err e) next done left part h = unfold Orderly in (left, part)

wait-Orderly : (w : Waiting) → Orderly (wait w starting).exit (wait w starting).actions
unfolding wait Orderly
wait-Orderly (server_failed e) = ([], refl)
wait-Orderly signalled = refl
wait-Orderly nothing = refl

actions-Orderly : (env : Environment) → Orderly (main env).exit (main env).actions
unfolding main
actions-Orderly env = must-Orderly _ (load env.parsed) _ [] starting refl λ cfg.
    must-Orderly _ (validate cfg (is_production env)).0 _ [] starting refl λ _.
      must-Orderly _ env.connected _ [] starting refl λ _.
        must-Orderly _ env.pinged _ (connect_db ∷ []) (drop 1 starting) refl λ _.
          must-Orderly _ env.migrated _ (take 2 starting) (drop 2 starting) refl λ _.
            must-Orderly _ env.redis _ (take 3 starting) (drop 3 starting) refl
              λ _. wait-Orderly env.waiting

module _ {A : Type 0} where
  -- A run that stops has passed the call.
  must-stopped :
      (message : Str) (r : Result A) (next : A → List Action → Run) (done : List Action)
      → (must message r next done).exit ≡ stopped
      → (a : A) × ((r ≡ ok a) × ((next a done).exit ≡ stopped))
  must-stopped message (ok a) next done h = (a, (refl, h))
  must-stopped message (err e) next done h = absurd (cc)

load-ok : (r : Result Config) (cfg : Config) → load r ≡ ok cfg → r ≡ ok cfg
unfolding load
load-ok (ok c) cfg h = h
load-ok (err e) cfg h = absurd (cc)

wait-stopped : (w : Waiting) (done : List Action) → (wait w done).exit ≡ stopped → w ≡ signalled
unfolding wait
wait-stopped (server_failed e) done h = absurd (cc)
wait-stopped signalled done h = refl
wait-stopped nothing done h = absurd (cc)

main-stopped : (env : Environment) → (main env).exit ≡ stopped → Succeeds env
unfolding main Succeeds
main-stopped env h =
    let (cfg, (e1, h1)) = must-stopped _ (load env.parsed) _ [] h in
    let (_, (_, h2)) = must-stopped _ (validate cfg (is_production env)).0 _ [] h1 in
    let (u3, (e3, h3)) = must-stopped _ env.connected _ [] h2 in
    let (u4, (e4, h4)) = must-stopped _ env.pinged _ _ h3 in
    let (u5, (e5, h5)) = must-stopped _ env.migrated _ _ h4 in
    let (u6, (e6, h6)) = must-stopped _ env.redis _ _ h5 in
    ((cfg, load-ok env.parsed cfg e1), (e3, (e4, (e5, (e6, wait-stopped env.waiting _ h6)))))

validate-ok : (c : Config) (production : Bool) → (validate c production).0 ≡ ok tt
unfolding validate
validate-ok c true = refl
validate-ok c false = refl

Succeeds-main : (env : Environment) → Succeeds env → (main env).exit ≡ stopped
unfolding main Succeeds load wait
Succeeds-main env ((cfg, e1), (e3, (e4, (e5, (e6, e7))))) =
    rw (e1, validate-ok cfg (is_production env), e3, e4, e5, e6, e7) refl

-- Whatever the calls return, a run of `main` that gets to `log.Fatal` has done a part of the start
-- and closed nothing, one that goes on has done the whole start, and one that stops has done the
-- whole start, the shutdown, and the closing of all that it opened in the opposite order. It stops
-- exactly when every call of the start succeeds and a signal arrives.
pub main-Orderly :
    (env : Environment)
    → Orderly (main env).exit (main env).actions × (((main env).exit ≡ stopped) ↔ Succeeds env)
main-Orderly env = (actions-Orderly env, (main-stopped env, Succeeds-main env))
