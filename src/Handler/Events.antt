-- ===== src/Handler/Events.antt =====
-- internal/handler/events.go: the server-sent events of one connection.
pub mod Backlog
pub mod Delivery
use kakao_relay.Prelude.{Str, Option, none, some, List, [], ◌∷◌, ◌++◌, lit, is_empty, if◌then◌else◌}
use kakao_relay.Model.{
  Json, end, field, Account, InboundMessage, Session, SessionStatus, pending_pairing, paired,
  expired, disconnected,
}
use kakao_relay.World.{Event, World, Result, ok, err, next}
use kakao_relay.Service.Message.{find_queued_by_account_id, mark_delivered}
use kakao_relay.Service.Session.{session_channel}
use kakao_relay.Handler.Kakao.{message_event}

-- What a `Fprintf` writes.
pub data Frame : Type 0 where
  event_line : Str → Frame
  data_line : Json → Frame
  ping : Frame

-- The response writer: what was written, and how the coming writes end.
pub record Writer : Type 0 where
  pub written : List Frame
  pub faults : List (Option Str)

abbrev write_end : Option Str → Frame → Writer → Result (Unit {0}) × Writer
write_end (some e) f out = (err e, out)
write_end none f out = (ok tt, record out { written = out.written ++ f ∷ [] })

unfoldable pub write : Frame → Writer → Result (Unit {0}) × Writer
write f out =
    let (fault, rest) = next none out.faults in write_end fault f (record out { faults = rest })

abbrev pub then_write : Frame → Result (Unit {0}) × Writer → Result (Unit {0}) × Writer
then_write f (err e, out) = (err e, out)
then_write f (ok _, out) = write f out

-- `sendRawEvent`
unfoldable pub send_raw_event : Event → Writer → Result (Unit {0}) × Writer
unfolding write
send_raw_event e out = then_write (data_line e.payload) (write (event_line e.type) out)

-- The loop of `sendQueuedMessages`: a failed write ends it, a failed mark is logged only.
unfoldable pub send_messages :
    List InboundMessage → Writer → World → Result (Unit {0}) × Writer × World
send_messages [] out w = (ok tt, out, w)
send_messages (m ∷ ms) out w =
    let sent = send_raw_event (message_event m) out in
    elim sent.0 [
      | err e ↦ (err e, sent.1, w)
      | ok _ ↦ send_messages ms sent.1 (mark_delivered m.id w).1
    ]

unfoldable pub send_found :
    Result (List InboundMessage) × World → Writer → Result (Unit {0}) × Writer × World
unfolding send_messages
send_found (err e, w) out = (err e, out, w)
send_found (ok ms, w) out = send_messages ms out w

-- `sendQueuedMessages`
unfoldable pub send_queued_messages : Str → Writer → World → Result (Unit {0}) × Writer × World
unfolding send_found
send_queued_messages account_id out w = send_found (find_queued_by_account_id account_id w) out

-- The names of the statuses.
abbrev pub status_text : SessionStatus → Str
status_text pending_pairing = lit "pending_pairing"
status_text paired = lit "paired"
status_text expired = lit "expired"
status_text disconnected = lit "disconnected"

abbrev pub session_id_of : Option Session → Str
session_id_of none = []
session_id_of (some s) = s.id

abbrev pub session_status_of : Option Session → Str
session_status_of none = lit "paired"
session_status_of (some s) = status_text s.status

abbrev pub connected_event : Str → Option Session → Event
connected_event account_id session = record {
  type = lit "connected";
  payload = Json.obj (
      field (lit "accountId") (Json.str account_id) (
        field (lit "sessionId") (Json.str (session_id_of session))
          (field (lit "status") (Json.str (session_status_of session)) end)));
}

-- The channel to subscribe to, with the account whose queue is sent first, or no right to either.
unfoldable pub subscription : Option Account → Option Session → Option (Str × Str)
subscription (some a) session = some (a.id, a.id)
subscription none (some s) = some (session_channel s.id, [])
subscription none none = none

-- What the loop of `ServeHTTP` waits for.
pub data Signal : Type 0 where
  request_done broker_done heartbeat : Signal
  event : Event → Signal

-- The loop ends at the first signal that closes the connection or the first failed write.
unfoldable pub serve_loop : List Signal → Writer → Writer
serve_loop [] out = out
serve_loop (request_done ∷ rest) out = out
serve_loop (broker_done ∷ rest) out = out
serve_loop (event e ∷ rest) out =
    let sent = send_raw_event e out in
    elim sent.0 [ err _ ↦ sent.1 | ok _ ↦ serve_loop rest sent.1 ]
serve_loop (heartbeat ∷ rest) out =
    let sent = write ping out in elim sent.0 [ err _ ↦ sent.1 | ok _ ↦ serve_loop rest sent.1 ]

abbrev pub send_backlog : Str → Writer → World → Writer × World
send_backlog account_id out w =
    if is_empty account_id
    then (out, w)
    else (let (r, out', w') = send_queued_messages account_id out w in (out', w'))

-- `ServeHTTP` after the subscription: the backlog, the greeting, and the loop. Its error values
-- are logged or dropped. `none` is the answer 401.
unfoldable pub serve_events :
    Option Account → Option Session → List Signal → Writer → World → Option (Writer × World)
unfolding subscription
serve_events account session signals out w = elim (subscription account session) [
  | none ↦ none
  | some (channel, account_id) ↦
      let (out', w') = send_backlog account_id out w in
      some (serve_loop signals (send_raw_event (connected_event account_id session) out').1, w')
]
