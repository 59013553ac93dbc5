-- ===== src/Handler/Openclaw/Isolation.antt =====
-- What `Reply` sends, and to whom: tenant isolation and the outbound record.
use kakao_relay.Prelude.{
  ℕ, subst, is_empty, ℕ, Str, str_eq, str_eq_iff, true, Option, none, some, List, [], ◌∷◌, ◌++◌,
  arith, ◌≡◌, refl, ◌⊎◌, inl, inr, find_where, Bool-cases,
}
use kakao_relay.Model.{Json, Account, InboundMessage, OutboundMessage, json_or_null}
use kakao_relay.World.{Database, World, after, Result, ok, err, db_call}
use kakao_relay.Repository.Query.Cases.{get_context-Ends}
use kakao_relay.Runtime.{Runtime}
use kakao_relay.Repository.Query.{get_context, exec_context}
use kakao_relay.Repository.Inbound
use kakao_relay.Repository.Outbound
use kakao_relay.Service.Callback.{is_valid_callback_url, send_callback, post}
use kakao_relay.Service.Message.{
  find_inbound_by_id, create_outbound, mark_outbound_sent, mark_outbound_failed,
}
use kakao_relay.Handler.Openclaw.{
  ReplyRequest, not_expired, valid_callback, outbound_params, finish_reply, send_reply, reply_to,
  reply_found, reply,
}

posted-db_call :
    {A : Type 0} (run : World → Result A × Database) (w : World)
    → (db_call run w).1.posted ≡ w.posted
unfolding db_call
posted-db_call run w = ground arith

posted-find : (id : Str) (w : World) → (find_inbound_by_id id w).1.posted ≡ w.posted
unfolding find_inbound_by_id Inbound.find_by_id get_context
posted-find id w = ground arith

pub posted-finish :
    (o : OutboundMessage) (r : Result (Unit {0})) (w : World)
    → (finish_reply o (r, w)).1.posted ≡ w.posted
unfolding finish_reply mark_outbound_sent mark_outbound_failed Outbound.mark_sent
    Outbound.mark_failed Outbound.update_messages exec_context
posted-finish o (ok _) w = ground arith
posted-finish o (err e) w = ground arith

pub posted-create :
    (p : Outbound.CreateOutboundParams) (w : World) → (create_outbound p w).1.posted ≡ w.posted
unfolding create_outbound Outbound.create
posted-create p w = ground arith

-- The message that a request names, and why its callback may be used by the account.
pub record MayReply (rt : Runtime) (account : Account) (id : Str) (db : Database) (now : ℕ)
    (url : Str) : Type 0 where
  pub message : InboundMessage
  pub found : find_where (Inbound.has_id id) db.inbound ≡ some message
  pub owned : message.account_id ≡ account.id
  pub callback : message.callback_url ≡ some url
  pub fresh : not_expired now message.callback_expires_at ≡ true
  pub allowed : is_valid_callback_url rt url ≡ true

-- Either nothing is sent, or one POST of the response to the callback URL of the account's message.
abbrev pub SendsOnly : Runtime → Account → ReplyRequest → World → World → Type 0
SendsOnly rt account req w w' =
    (w'.posted ≡ w.posted)
    ⊎ ((url : Str) × MayReply rt account req.message_id w.db w.now url
        × (w'.posted ≡ w.posted ++ (url, json_or_null req.response) ∷ []))

posted-send_callback :
    (rt : Runtime) (url : Str) (payload : Json) (w : World)
    → ((send_callback rt url payload w).1.posted ≡ w.posted)
      ⊎ ((is_valid_callback_url rt url ≡ true)
          × ((send_callback rt url payload w).1.posted ≡ w.posted ++ (url, payload) ∷ []))
unfolding send_callback post
posted-send_callback rt url payload w = elim (Bool-cases (is_valid_callback_url rt url)) [
  | inl yes' ↦ inr (yes', rw yes')
  | inr no' ↦ inl (rw no')
]

module _ (rt : Runtime) (account : Account) (req : ReplyRequest) where
  abbrev post_of : Str → Str × Json
  post_of url = (url, json_or_null req.response)

  -- Nothing was sent, or one POST to a valid URL was.
  abbrev Posts : Str → List (Str × Json) → List (Str × Json) → Type 0
  Posts url sent sent' =
      (sent' ≡ sent) ⊎ ((is_valid_callback_url rt url ≡ true) × (sent' ≡ sent ++ post_of url ∷ []))

  send_reply-Posts :
      (url : Str) (r : Result OutboundMessage) (w : World)
      → Posts url w.posted (send_reply rt url req (r, w)).1.posted
  unfolding send_reply
  send_reply-Posts url (err e) w = inl refl
  send_reply-Posts url (ok o) w =
      let (r, w') = send_callback rt url (json_or_null req.response) w in
      rw (posted-finish o r w') (posted-send_callback rt url (json_or_null req.response) w)

  reply_to-Posts :
      (m : InboundMessage) (url : Str) (w : World)
      → Posts url w.posted (reply_to rt account req m (some url) w).1.posted
  unfolding reply_to
  reply_to-Posts m url w =
      let (r, w') = create_outbound (outbound_params account m req) w in
      subst (λ sent. Posts url sent (send_reply rt url req (r, w')).1.posted)
        (posted-create (outbound_params account m req) w) (send_reply-Posts url r w')

  pub callback-fresh :
      (now : ℕ) (m : InboundMessage) (url : Str)
      → valid_callback now m ≡ some url
      → (m.callback_url ≡ some url) × (not_expired now m.callback_expires_at ≡ true)
  callback-fresh now m url h = ground arith

  owned-SendsOnly :
      (m : InboundMessage) (w : World)
      → find_where (Inbound.has_id req.message_id) w.db.inbound ≡ some m
      → m.account_id ≡ account.id
      → (o : Option Str) → valid_callback w.now m ≡ o
      → SendsOnly rt account req w (reply_to rt account req m o w).1
  unfolding reply_to
  owned-SendsOnly m w found owned none v = inl refl
  owned-SendsOnly m w found owned (some url) v = elim (reply_to-Posts m url w) [
    | inl same ↦ inl same
    | inr (allowed, sent) ↦ inr (
      url,
      record {
        message = m;
        found = found;
        owned = owned;
        callback = (callback-fresh w.now m url v).0;
        fresh = (callback-fresh w.now m url v).1;
        allowed = allowed;
      },
      sent,
    )
  ]

  found-SendsOnly :
      (o : Option InboundMessage) (w : World)
      → find_where (Inbound.has_id req.message_id) w.db.inbound ≡ o
      → SendsOnly rt account req w (reply_found rt account req (ok o, w)).1
  unfolding reply_found
  found-SendsOnly none w found = inl refl
  found-SendsOnly (some m) w found = elim (Bool-cases (str_eq m.account_id account.id)) [
    | inl same ↦
        rw same (owned-SendsOnly m w found ((str_eq_iff _ _).0 same) (valid_callback w.now m) refl)
    | inr other ↦ rw other (inl refl)
  ]

  looked_up-SendsOnly :
      (w : World)
      → SendsOnly rt account req w
          (reply_found rt account req (find_inbound_by_id req.message_id w)).1
  unfolding find_inbound_by_id Inbound.find_by_id
  looked_up-SendsOnly w =
      elim (get_context-Ends (λ v. find_where (Inbound.has_id req.message_id) v.db.inbound) w) [
        | inl (e, failed) ↦ rw failed (unfold reply_found in inl refl)
        | inr found ↦ rw found (found-SendsOnly _ (after w) refl)
      ]

  -- Whatever the request names and whichever calls fail, the reply sends nothing, or exactly one
  -- POST: the request's response, to the callback URL of the message that the request names, which
  -- is a message of the account, whose callback has not expired and is a valid URL.
  pub reply-SendsOnly :
      (w : World) → SendsOnly rt account req w (reply rt (some account) (some req) w).1
  unfolding reply
  reply-SendsOnly w = elim (Bool-cases (is_empty req.message_id)) [
    | inl blank ↦ rw blank (inl refl)
    | inr named ↦ rw named (looked_up-SendsOnly w)
  ]
