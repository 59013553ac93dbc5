-- ===== src/Handler/Openclaw/Delivery.antt =====
-- What a reply that reports its delivery has done.
use kakao_relay.Prelude.{
  ℕ, ◌≤◌, ◌<◌, Str, str_eq, str_eq_iff, is_empty, true, Option, none, some, List, [], ◌∷◌, ◌++◌,
  lit, ◌≡◌, refl, sym, ap, subst, ◌∙◌, arith, find_where, Bool-cases, inl, inr,
}
use kakao_relay.Model.{Json, Account, InboundMessage, OutboundMessage, json_or_null}
use kakao_relay.World.{World, Result, ok, err, HttpReply, refused, answered, next, after}
use kakao_relay.Runtime.{Runtime}
use kakao_relay.Repository.Query.Cases.{get_context-Ends}
use kakao_relay.Repository.Inbound
use kakao_relay.Repository.Outbound
use kakao_relay.Service.Callback.{is_valid_callback_url, callback_result, send_callback, post}
use kakao_relay.Service.Message.{find_inbound_by_id, create_outbound}
use kakao_relay.Handler.Openclaw.{
  ReplyRequest, delivered, valid_callback, outbound_params, finish_reply, send_reply, reply_to,
  reply_found, reply,
}
use kakao_relay.Handler.Openclaw.Isolation.{MayReply, posted-create, posted-finish, callback-fresh}

-- The remote server's next answer is a success.
abbrev pub Accepts : List HttpReply → Type 0
Accepts replies =
    (status : ℕ) × (((next (refused (lit "no answer")) replies).0 ≡ answered status)
      × (200 ≤ status)
      × (status < 300))

callback_result-ok :
    (r : HttpReply)
    → callback_result r ≡ ok tt
    → (status : ℕ) × ((r ≡ answered status) × (200 ≤ status) × (status < 300))
unfolding callback_result
callback_result-ok (refused e) h = absurd cc
callback_result-ok (answered status) h = (status, (refl, ground (arith, h), ground (arith, h)))

send_callback-ok :
    (rt : Runtime) (url : Str) (payload : Json) (w : World)
    → (send_callback rt url payload w).0 ≡ ok tt
    → (is_valid_callback_url rt url ≡ true)
      × ((send_callback rt url payload w).1.posted ≡ w.posted ++ (url, payload) ∷ [])
      × (callback_result (next (refused (lit "no answer")) w.replies).0 ≡ ok tt)
unfolding send_callback post
send_callback-ok rt url payload w h = ground (arith, h)

replies-create :
    (p : Outbound.CreateOutboundParams) (w : World) → (create_outbound p w).1.replies ≡ w.replies
unfolding create_outbound Outbound.create
replies-create p w = ground arith

-- A POST of the response to the URL, answered with success.
abbrev pub Delivers : Runtime → ReplyRequest → Str → World → World → Type 0
Delivers rt req url w w' =
    (is_valid_callback_url rt url ≡ true)
    × (w'.posted ≡ w.posted ++ (url, json_or_null req.response) ∷ [])
    × Accepts w.replies

finish_reply-delivered :
    (o : OutboundMessage) (r : Result (Unit {0})) (w w' : World) (t : ℕ)
    → finish_reply o (r, w) ≡ (delivered t, w')
    → (r ≡ ok tt) × ((finish_reply o (r, w)).1 ≡ w')
unfolding finish_reply
finish_reply-delivered o (ok _) w w' t h = (refl, ap (λ x. x.1) h)
finish_reply-delivered o (err e) w w' t h = absurd cc

send_reply-Delivers :
    (rt : Runtime) (url : Str) (req : ReplyRequest) (r : Result OutboundMessage) (w w' : World)
    (t : ℕ)
    → send_reply rt url req (r, w) ≡ (delivered t, w')
    → Delivers rt req url w w'
unfolding send_reply
send_reply-Delivers rt url req (err e) w w' t h = absurd cc
send_reply-Delivers rt url req (ok o) w w' t h =
    let payload = json_or_null req.response in
    let (r, v) = send_callback rt url payload w in
    let (sent, last) = finish_reply-delivered o r v w' t h in
    let (allowed, posted, accepted) = send_callback-ok rt url payload w sent in
    (
      allowed,
      sym (ap (λ (x : World). x.posted) last) ∙ posted-finish o r v ∙ posted,
      callback_result-ok _ accepted,
    )

module _ (rt : Runtime) (account : Account) (req : ReplyRequest) (w' : World) (t : ℕ) where
  reply_to-Delivers :
      (m : InboundMessage) (url : Str) (w : World)
      → reply_to rt account req m (some url) w ≡ (delivered t, w')
      → Delivers rt req url w w'
  unfolding reply_to
  reply_to-Delivers m url w h =
      let p = outbound_params account m req in
      let (r, v) = create_outbound p w in
      let (allowed, posted, accepted) = send_reply-Delivers rt url req r v w' t h in
      (
        allowed,
        posted ∙ ap (λ sent. sent ++ (url, json_or_null req.response) ∷ []) (posted-create p w),
        subst Accepts (replies-create p w) accepted,
      )

  no_callback :
      (m : InboundMessage) (w : World) → reply_to rt account req m none w ≡ (delivered t, w') → ⊥
  unfolding reply_to
  no_callback m w h = cc

  not_found : (e : Str) (w : World) → reply_found rt account req (err e, w) ≡ (delivered t, w') → ⊥
  unfolding reply_found
  not_found e w h = cc

  owned-Delivers :
      (m : InboundMessage) (o : Option Str) (w : World)
      → find_where (Inbound.has_id req.message_id) w.db.inbound ≡ some m
      → m.account_id ≡ account.id
      → valid_callback w.now m ≡ o
      → reply_to rt account req m o w ≡ (delivered t, w')
      → (url : Str) × (MayReply rt account req.message_id w.db w.now url × Delivers rt req url w w')
  owned-Delivers m none w found owned v h = absurd (no_callback m w h)
  owned-Delivers m (some url) w found owned v h =
      let sent = reply_to-Delivers m url w h in
      (
        url,
        (
          record {
            message = m;
            found = found;
            owned = owned;
            callback = (callback-fresh rt account req w.now m url v).0;
            fresh = (callback-fresh rt account req w.now m url v).1;
            allowed = sent.0;
          },
          sent,
        ),
      )

  found-Delivers :
      (o : Option InboundMessage) (w : World)
      → find_where (Inbound.has_id req.message_id) w.db.inbound ≡ o
      → reply_found rt account req (ok o, w) ≡ (delivered t, w')
      → (url : Str) × (MayReply rt account req.message_id w.db w.now url × Delivers rt req url w w')
  unfolding reply_found
  found-Delivers none w found h = absurd cc
  found-Delivers (some m) w found h = elim (Bool-cases (str_eq m.account_id account.id)) [
    | inl same ↦
        owned-Delivers m (valid_callback w.now m) w found ((str_eq_iff _ _).0 same) refl
          (ground (arith, h, same))
    | inr other ↦ absurd (ground (arith, h, other))
  ]

  looked_up-Delivers :
      (w : World)
      → reply_found rt account req (find_inbound_by_id req.message_id w) ≡ (delivered t, w')
      → (url : Str) × (MayReply rt account req.message_id w.db w.now url × Delivers rt req url w w')
  unfolding find_inbound_by_id Inbound.find_by_id
  looked_up-Delivers w h =
      let q = λ (v : World). find_where (Inbound.has_id req.message_id) v.db.inbound in
      let Ends' = λ (o : Result (Option InboundMessage) × World).
        reply_found rt account req o ≡ (delivered t, w') in
      elim (get_context-Ends q w) [
        | inl (e, failed) ↦ absurd (not_found e (after w) (subst Ends' failed h))
        | inr found ↦ found-Delivers (q w) (after w) refl (subst Ends' found h)
      ]

-- A reply that reports its delivery has made exactly one POST, of the request's response, to the
-- callback URL of a message of the account whose callback has not expired and is valid, and the
-- remote server has answered it with a status from 200 to 299.
pub reply-Delivers :
    (rt : Runtime) (account : Account) (req : ReplyRequest) (w w' : World) (t : ℕ)
    → reply rt (some account) (some req) w ≡ (delivered t, w')
    → (url : Str) × (MayReply rt account req.message_id w.db w.now url × Delivers rt req url w w')
unfolding reply
reply-Delivers rt account req w w' t h = elim (Bool-cases (is_empty req.message_id)) [
  | inl blank ↦ absurd (ground (arith, h, blank))
  | inr named ↦ looked_up-Delivers rt account req w' t w (ground (arith, h, named))
]
