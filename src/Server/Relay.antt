-- ===== src/Server/Relay.antt =====
-- A message on its way from Kakao to the client, and the client's answer on its way back.
use kakao_relay.Prelude.{
  ℕ, ◌+◌, ◌<◌, Str, is_empty, true, false, Option, none, some, List, [], ◌∷◌, ◌++◌, ◌≡◌, refl, sym,
  ap, subst, ◌∙◌, arith, find_where, find-append, str_eq_refl,
}
use kakao_relay.Model.{Json, Account, ConversationMapping, InboundMessage}
use kakao_relay.World.{World, Result, next}
use kakao_relay.Runtime.{Runtime}
use kakao_relay.Repository.Inbound
use kakao_relay.Repository.Inbound.{queued_of, new_message}
use kakao_relay.Repository.Outbound
use kakao_relay.Service.Callback.{is_valid_callback_url, callback_result}
use kakao_relay.Handler.Types.{KakaoWebhookRequest}
use kakao_relay.Handler.Kakao.{handle_webhook, callback_url_of, callback_expiry_of}
use kakao_relay.Handler.Kakao.Queueing.{
  message_id, message_of, Relayable, relayed, handle_webhook-relayed,
}
use kakao_relay.Handler.Events.{Frame, Writer, send_queued_messages}
use kakao_relay.Handler.Events.Delivery.{frames, send_queued_messages-Drained}
use kakao_relay.Handler.Events.Backlog.{
  Carries, delivered_world, send_queued_messages-world, newest-frames, find-delivered_rows,
}
use kakao_relay.Handler.Openclaw.{ReplyRequest, ReplyOutcome, not_expired, reply}
use kakao_relay.Handler.Openclaw.Isolation.{MayReply}
use kakao_relay.Handler.Openclaw.Settlement.{next_reply, outcome_of, Settled, reply-Settled}

-- The world at a later time.
abbrev pub at : ℕ → World → World
at t w = record w { now = t }

-- The id of the reply's row; the two before it go to the upsert and the message.
abbrev pub reply_id : World → Str
reply_id w = (next [] (next [] (next [] w.uuids).1).1).0

-- What a round trip needs: a request that can be relayed, with a valid callback URL, an account
-- that is stored, ids that are new, no failing database call and no failing write.
pub record Ready (rt : Runtime) (r : KakaoWebhookRequest) (c : ConversationMapping)
    (account : Account) (out : Writer) (w : World) : Type 0 where
  pub relayable : Relayable rt r c account.id w
  pub callback : is_empty r.callback_url ≡ false
  pub allowed : is_valid_callback_url rt r.callback_url ≡ true
  pub named : is_empty (message_id w) ≡ false
  pub fresh_reply : find_where (Outbound.has_id (reply_id w)) w.db.outbound ≡ none
  pub no_faults : w.db_faults ≡ []
  pub no_write_faults : out.faults ≡ []

-- The three requests: the webhook's at the time of the world, the stream's at `t`, the reply's at
-- `t'`.
module _ (rt : Runtime) (r : KakaoWebhookRequest) (ttl : ℕ) (account : Account) (out : Writer)
    (t t' : ℕ) (payload : Json) where
  abbrev pub streamed : World → Result (Unit {0}) × Writer × World
  streamed w = send_queued_messages account.id out (at t (handle_webhook rt ttl r w).1)

  abbrev pub answer_of : World → ReplyRequest
  answer_of w = record { message_id = message_id w; response = some payload }

  abbrev pub replied : World → ReplyOutcome × World
  replied w = reply rt (some account) (some (answer_of w)) (at t' (streamed w).2)

  -- What becomes of the request: the client's stream carries its message, and the answer is
  -- posted to the request's own callback URL, and nowhere else.
  pub record RoundTrip (w : World) : Type 0 where
    pub carried :
        (fs : List Frame) × (((streamed w).1.written ≡ out.written ++ fs)
          × Carries (message_of r ttl account.id w) fs)
    pub outcome : (replied w).0 ≡ outcome_of (callback_result (next_reply w)) t'
    pub posted : (replied w).1.posted ≡ w.posted ++ (r.callback_url, payload) ∷ []

  -- The world after the stream, written out.
  abbrev relayed_at : World → World
  relayed_at w = at t (relayed r ttl account.id w)

  abbrev backlog : World → List InboundMessage
  backlog w = queued_of account.id (relayed_at w).db

  webhook-world :
      (c : ConversationMapping) (w : World)
      → Ready rt r c account out w
      → at t (handle_webhook rt ttl r w).1 ≡ relayed_at w
  webhook-world c w ready =
      ap (λ o. at t o.1) (handle_webhook-relayed rt r ttl account.id c w ready.relayable)

  no_faults_left :
      (c : ConversationMapping) (w : World)
      → Ready rt r c account out w
      → (relayed_at w).db_faults ≡ []
  no_faults_left c w ready = ap (λ fs. (next none (next none fs).1).1) ready.no_faults

  stream-world :
      (c : ConversationMapping) (w : World)
      → Ready rt r c account out w
      → (streamed w).2 ≡ delivered_world (backlog w) (relayed_at w)
  stream-world c w ready =
      ap (λ v. (send_queued_messages account.id out v).2) (webhook-world c w ready)
      ∙ send_queued_messages-world account.id out (relayed_at w)
          (no_faults_left c w ready, ready.no_write_faults)

  relayed-carried :
      (c : ConversationMapping) (w : World)
      → Ready rt r c account out w
      → (fs : List Frame) × (((streamed w).1.written ≡ out.written ++ fs)
          × Carries (message_of r ttl account.id w) fs)
  relayed-carried c w ready =
      let sent =
        send_queued_messages-Drained account.id out (relayed_at w)
          (no_faults_left c w ready, ready.no_write_faults) in
      (
        frames (backlog w),
        (
          ap (λ v. (send_queued_messages account.id out v).1.written) (webhook-world c w ready)
              ∙ sent.written,
          newest-frames (message_of r ttl account.id w) w.db.inbound (relayed_at w).db refl refl,
        ),
      )

  -- The callback that a message of the request carries.
  its_url : is_empty r.callback_url ≡ false → callback_url_of r ≡ some r.callback_url
  its_url given = ground (arith, given)

  its_expiry :
      (now : ℕ) → is_empty r.callback_url ≡ false → callback_expiry_of r ttl now ≡ some (now + ttl)
  its_expiry now given = ground (arith, given)

  in_time :
      (now : ℕ) (e : Option ℕ) → e ≡ some (now + ttl) → t' < now + ttl → not_expired t' e ≡ true
  in_time now e same early = ap (not_expired t') same ∙ ground (arith, early)

  -- The world that the reply works on.
  abbrev before_reply : World → World
  before_reply w = at t' (delivered_world (backlog w) (relayed_at w))

  delivered-MayReply :
      (c : ConversationMapping) (w : World)
      → t' < w.now + ttl
      → Ready rt r c account out w
      → MayReply rt account (message_id w) (before_reply w).db t' r.callback_url
  delivered-MayReply c w early ready =
      let m = message_of r ttl account.id w in
      let stored =
        find-append (Inbound.has_id m.id) w.db.inbound m ready.relayable.fresh_id
          (str_eq_refl m.id) in
      let (m', (found, origin)) = find-delivered_rows m.id t (backlog w) _ m stored in
      record {
        message = m';
        found = found;
        owned = origin.account_id;
        callback = origin.callback_url ∙ its_url ready.callback;
        fresh =
            in_time w.now m'.callback_expires_at
              (origin.callback_expires_at ∙ its_expiry w.now ready.callback) early;
        allowed = ready.allowed;
      }

  relayed-Settled :
      (c : ConversationMapping) (w : World) (early : t' < w.now + ttl)
      (ready : Ready rt r c account out w)
      → Settled account
          (answer_of w)
          (delivered-MayReply c w early ready).message
          r.callback_url
          payload
          (before_reply w)
          (replied w)
  relayed-Settled c w early ready =
      let may = delivered-MayReply c w early ready in
      subst
        (λ v.
          Settled account (answer_of w) may.message r.callback_url payload (before_reply w)
            (reply rt (some account) (some (answer_of w)) (at t' v)))
        (sym (stream-world c w ready))
        (reply-Settled rt account (answer_of w) r.callback_url payload (before_reply w) may
          (record { no_faults = refl; known = ready.relayable.known; fresh_id = ready.fresh_reply })
          ready.named refl)

  -- Let a webhook request be no command, its conversation stored as paired with a stored account,
  -- its callback URL given and valid, the ids of the coming rows new and the message's not empty,
  -- and let no database call, no write to the stream and no publication fail. Then the backlog that
  -- the account's stream sends next carries the request's message, and a reply that names the
  -- message before the callback expires makes one POST, of the response to the request's own
  -- callback URL. The caller is told that it was delivered when the remote server answers with a
  -- status from 200 to 299, and gets the callback error otherwise.
  pub relay-RoundTrip :
      (c : ConversationMapping) (w : World)
      → t' < w.now + ttl
      → Ready rt r c account out w
      → RoundTrip w
  relay-RoundTrip c w early ready =
      let settled = relayed-Settled c w early ready in
      record {
        carried = relayed-carried c w ready;
        outcome = settled.answer;
        posted = settled.posted;
      }
