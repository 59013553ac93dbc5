-- ===== src/Broker.antt =====
-- internal/sse/broker.go and internal/redis/client.go: publishing to Redis. The subscribers' side
-- is below.
pub mod Subscribers
use kakao_relay.Prelude.{Str, none, some, [], ◌∷◌, ◌++◌, lit}
use kakao_relay.World.{Event, ok, err, M, next}

-- `MessageChannel`
unfoldable pub message_channel : Str → Str
message_channel account_id = lit "messages:" ++ account_id

-- `Publish`; marshalling a well-formed event does not fail.
unfoldable pub publish : Str → Event → M (Unit {0})
unfolding message_channel
publish account_id event w =
    let (fault, rest) = next none w.redis_faults in
    let w' = record w { redis_faults = rest } in
    elim fault [
      | some e ↦ (err e, w')
      | none ↦
          (ok tt, record w' { published = w.published ++ (message_channel account_id, event) ∷ [] })
    ]
