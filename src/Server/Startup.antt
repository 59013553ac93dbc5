-- ===== src/Server/Startup.antt =====
-- cmd/server/main.go: the order in which `main` opens the parts, and how it ends. What the outside
-- makes of each call is an argument. `log.Fatal` exits at once: no deferred call runs.
pub mod Order
use kakao_relay.Prelude.{
  Str, str_eq, Bool, ◌||◌, not, List, [], ◌∷◌, ◌++◌, lit, is_empty, if◌then◌else◌,
}
use kakao_relay.World.{Result, ok, err}
use kakao_relay.Config.{Config, load, validate}

pub data Level : Type 0 where
  debug info warn error : Level

-- `setLogLevel`
unfoldable pub set_log_level : Str → Level
set_log_level level =
    if str_eq level (lit "debug")
    then debug
    else if str_eq level (lit "info")
    then info
    else if str_eq level (lit "warn")
    then warn
    else if str_eq level (lit "error")
    then error
    else info

-- What `main` does to the parts.
pub data Action : Type 0 where
  connect_db ping_db migrate_db connect_redis new_broker start_cleanup listen : Action
  shutdown_server stop_cleanup close_broker close_redis close_db : Action

-- How `main` waits: `ListenAndServe` fails, a signal arrives, or neither ever happens.
pub data Waiting : Type 0 where
  server_failed : Str → Waiting
  signalled nothing : Waiting

pub record Environment : Type 0 where
  pub parsed : Result Config
  pub k_service : Str
  pub fly_app_name : Str
  pub connected : Result (Unit {0})
  pub pinged : Result (Unit {0})
  pub migrated : Result (Unit {0})
  pub redis : Result (Unit {0})
  pub waiting : Waiting
  pub shut_down : Result (Unit {0})

-- Where a run gets to: `log.Fatal`, the end of `main`, or no end, as the server is still up.
pub data Exit : Type 0 where
  fatal : (message cause : Str) → Exit
  stopped still_up : Exit

pub record Run : Type 0 where
  pub exit : Exit
  pub actions : List Action

-- `os.Getenv("K_SERVICE") != "" || os.Getenv("FLY_APP_NAME") != ""`
abbrev pub is_production : Environment → Bool
is_production env = not (is_empty env.k_service) || not (is_empty env.fly_app_name)

-- A call that ends the program if it fails.
abbrev pub must : {A : Type 0} → Str → Result A → (A → List Action → Run) → List Action → Run
must message (ok a) rest done = rest a done
must message (err e) rest done = record { exit = fatal message e; actions = done }

abbrev pub opened : Action → (List Action → Run) → Unit {0} → List Action → Run
opened act rest _ done = rest (done ++ act ∷ [])

-- The deferred calls, the last one first.
abbrev pub deferred : List Action
deferred = stop_cleanup ∷ close_broker ∷ close_redis ∷ close_db ∷ []

-- After the start: the error of `Shutdown` is logged only.
unfoldable pub wait : Waiting → List Action → Run
wait (server_failed e) done = record { exit = fatal (lit "server error") e; actions = done }
wait signalled done = record { exit = stopped; actions = done ++ shutdown_server ∷ deferred }
wait nothing done = record { exit = still_up; actions = done }

abbrev pub serving : Environment → List Action → Run
serving env done = wait env.waiting (done ++ new_broker ∷ start_cleanup ∷ listen ∷ [])

-- `main`
unfoldable pub main : Environment → Run
unfolding load validate wait
main env =
    must (lit "failed to load config") (load env.parsed)
      (λ cfg. must (lit "invalid configuration") (validate cfg (is_production env)).0 (λ _.
        must (lit "failed to connect to database") env.connected (
          opened connect_db (
            must (lit "failed to ping database") env.pinged (
              opened ping_db (
                must (lit "failed to run migrations") env.migrated (
                  opened migrate_db (
                    must (lit "failed to connect to redis") env.redis
                      (opened connect_redis (serving env))))))))))
      []
