-- ===== src/Tests/Limits.antt =====
-- Examples of the rate limiters and of the broker.
use kakao_relay.Prelude.{true, ◌≤◌, List, [], ◌∷◌, lit, ◌≡◌, refl, arith, length}
use kakao_relay.Model.{Json}
use kakao_relay.World.{Event}
use kakao_relay.Middleware.Window.{live}
use kakao_relay.Middleware.RateLimit.{window_duration}
use kakao_relay.Middleware.RateLimit.Promise.{
  Request, run_checks, run_spec, new_limiter, no_logs, admitted, run_checks-eq-spec, admitted-le,
}
use kakao_relay.Middleware.RedisRateLimit
use kakao_relay.Middleware.RedisRateLimit.{empty_set, run_script}
use kakao_relay.Middleware.RedisRateLimit.Window.{
  Call, Regular, run_calls, run_window, run_calls-eq-window,
}
use kakao_relay.Middleware.RedisRateLimit.Refinement.{Onward, run_log, run_calls-eq-log}
use kakao_relay.Broker.Subscribers.{Broker, new_broker, subscribe, on_message, close}
use kakao_relay.Broker.Subscribers.Lifecycle.{Sound}
use kakao_relay.Broker.Subscribers.Connections.{
  Serving, new_serving, connected, disconnected, Reachable, start, then_step, connects, disconnects,
  receives, closes, Reachable-Sound,
}
use kakao_relay.Broker.Subscribers.Duplicates.{reconnects, events, on_message-duplicates}

-- Three requests with a limit of two, the last one within the minute of the others.
abbrev requests : List Request
requests =
    record { account = lit "a"; limit = 2; at = 5 }
    ∷ record { account = lit "a"; limit = 2; at = 6 }
    ∷ record { account = lit "a"; limit = 2; at = 7 }
    ∷ []

run_checks-eq-spec_example : run_checks requests (new_limiter 0) ≡ run_spec requests no_logs
run_checks-eq-spec_example =
    run_checks-eq-spec 0 requests (omega arith) (omega arith, (omega arith, (omega arith, tt)))

admitted-le_example :
    length
      (live window_duration 8 (admitted (lit "a") requests (run_checks requests (new_limiter 0))))
    ≤ 2
admitted-le_example =
    admitted-le 0 2 8 (lit "a") requests (omega arith)
      (omega arith, (omega arith, (omega arith, tt))) (omega arith)
      (omega arith, (omega arith, (omega arith, tt)))
      (λ _. omega arith, (λ _. omega arith, (λ _. omega arith, tt)))

abbrev calls : List Call
calls =
    record { limit = 1; at = 5; random = 1 }
    ∷ record { limit = 1; at = 6; random = 2 }
    ∷ record { limit = 1; at = 70; random = 1 }
    ∷ []

regular : Regular 60 0 calls empty_set
unfolding Regular run_script RedisRateLimit.check
regular = (omega arith, (tt, (omega arith, ((refl, tt), (omega arith, (tt, tt))))))

run_calls-eq-window_example : run_calls 60 calls empty_set ≡ run_window 60 calls []
run_calls-eq-window_example = run_calls-eq-window 60 0 calls regular

abbrev event : Event
event = record { type = lit "message"; payload = Json.null }

on_message-duplicates_example :
    (on_message (lit "a") event (subscribe (lit "a") (reconnects 2 (lit "a") new_broker))).queues 2
    ≡ events 3 event
on_message-duplicates_example = on_message-duplicates 2 (lit "a") event (omega arith)

-- One client connects, gets a message and leaves; then the broker closes.
abbrev one_client : Broker
one_client = subscribe (lit "a") new_broker

abbrev told : Broker
told = on_message (lit "a") event one_client

-- Two connections, a message, the end of one, the close of the broker, and the end of the other.
abbrev both : Serving
both = connected (lit "a") (connected (lit "a") new_serving)

abbrev one_left : Serving
one_left =
    disconnected (lit "a") 0 (record both { broker = on_message (lit "a") event both.broker })

abbrev ended : Serving
ended =
    disconnected (lit "a") 1 (record one_left { broker = close one_left.broker; closing = true })

lived : Reachable ended
unfolding subscribe kakao_relay.Prelude.str_eq kakao_relay.Prelude.select
lived =
    then_step
      (then_step
        (then_step
          (then_step
            (then_step (then_step start (connects (lit "a") refl)) (connects (lit "a") refl))
            (receives (lit "a") event))
          (disconnects (lit "a") 0 refl))
        closes)
      (disconnects (lit "a") 1 refl)

Reachable-Sound_example : Sound ended.broker
Reachable-Sound_example = Reachable-Sound ended lived

-- Three calls within one second with the same random part, which are one member.
abbrev same_second : List Call
same_second =
    record { limit = 2; at = 5; random = 7 }
    ∷ record { limit = 2; at = 5; random = 7 }
    ∷ record { limit = 1; at = 5; random = 7 }
    ∷ []

onward : Onward 5 same_second
unfolding Onward
onward = (omega arith, (omega arith, (omega arith, tt)))

run_calls-eq-log_example : run_calls 60 same_second empty_set ≡ run_log 60 same_second []
run_calls-eq-log_example = run_calls-eq-log 60 5 same_second (omega arith) onward
