-- ===== src/Handler/Openclaw/Settlement.antt =====
-- How a reply ends that nothing but the remote server stands in the way of.
use kakao_relay.Prelude.{
  ℕ, Str, str_eq, str_eq_refl, str_eq_iff, is_empty, Bool, true, false, Option, none, some, List,
  [], ◌∷◌, ◌++◌, lit, ◌≡◌, refl, sym, ap, ap₂, subst, ◌∙◌, arith, find_where, update_where, is_some,
}
use kakao_relay.Model.{Json, Account, InboundMessage, OutboundMessage, json_or_null}
use kakao_relay.World.{World, Result, ok, err, HttpReply, refused, next, after}
use kakao_relay.Runtime.{Runtime}
use kakao_relay.Errors.{callback_failed_error}
use kakao_relay.Repository.Query.{exec_context}
use kakao_relay.Repository.Query.Cases.{get_context-Answers}
use kakao_relay.Repository.Inbound
use kakao_relay.Repository.Outbound
use kakao_relay.Repository.Outbound.{CreateOutboundParams, new_message, set_sent, set_failed}
use kakao_relay.Service.Callback.{is_valid_callback_url, callback_result, send_callback, post}
use kakao_relay.Service.Message.{
  find_inbound_by_id, create_outbound, mark_outbound_sent, mark_outbound_failed,
}
use kakao_relay.Handler.Openclaw.{
  ReplyRequest, ReplyOutcome, delivered, rejected, outbound_params, finish_reply, send_reply,
  reply_to, reply_found, reply, not_expired, valid_callback,
}
use kakao_relay.Handler.Openclaw.Isolation.{MayReply, posted-finish}

update-append :
    {A : Type 0} (p : A → Bool) (f : A → A) (xs : List A) (x : A)
    → find_where p xs ≡ none
    → p x ≡ true
    → update_where p f (xs ++ x ∷ []) ≡ xs ++ f x ∷ []
unfolding find_where update_where
update-append p f [] x h k = rw k refl
update-append p f (y ∷ ys) x h k = ground (arith, h, k, update-append p f ys x)

-- The remote server's next answer.
abbrev pub next_reply : World → HttpReply
next_reply w = (next (refused (lit "no answer")) w.replies).0

-- What the caller is told, and what becomes of the outbound row.
pub outcome_of : Result (Unit {0}) → ℕ → ReplyOutcome
outcome_of (ok _) now = delivered now
outcome_of (err e) now = rejected (callback_failed_error (lit "Kakao callback failed"))

pub settled : Result (Unit {0}) → ℕ → OutboundMessage → OutboundMessage
settled (ok _) now o = set_sent now o
settled (err e) now o = set_failed e o

-- The row that the reply inserts.
abbrev pub row_of : Account → ReplyRequest → InboundMessage → Json → World → OutboundMessage
row_of account req m payload w =
    new_message (next [] w.uuids).0 (outbound_params account m req) payload w.now

-- One POST of the response, and one row with how it ended.
pub record Settled (account : Account) (req : ReplyRequest) (m : InboundMessage) (url : Str)
    (payload : Json) (w : World) (end_ : ReplyOutcome × World) : Type 0 where
  pub answer : end_.0 ≡ outcome_of (callback_result (next_reply w)) w.now
  pub posted : end_.1.posted ≡ w.posted ++ (url, payload) ∷ []
  pub recorded :
      end_.1.db.outbound
      ≡ w.db.outbound
        ++ settled (callback_result (next_reply w)) w.now (row_of account req m payload w) ∷ []

-- The database answers, the account is there, and the next id is new among the outbound messages.
pub record Storable (account : Account) (w : World) : Type 0 where
  pub no_faults : w.db_faults ≡ []
  pub known : is_some (find_where (λ (a : Account). str_eq a.id account.id) w.db.accounts) ≡ true
  pub fresh_id : find_where (Outbound.has_id (next [] w.uuids).0) w.db.outbound ≡ none

record Finished (o : OutboundMessage) (r : Result (Unit {0})) (rows : List OutboundMessage)
    (w : World) (end_ : ReplyOutcome × World) : Type 0 where
  answer : end_.0 ≡ outcome_of r w.now
  recorded : end_.1.db.outbound ≡ rows ++ settled r w.now o ∷ []

finish_reply-Finished :
    (o : OutboundMessage) (r : Result (Unit {0})) (rows : List OutboundMessage) (w : World)
    → w.db_faults ≡ []
    → w.db.outbound ≡ rows ++ o ∷ []
    → find_where (Outbound.has_id o.id) rows ≡ none
    → Finished o r rows w (finish_reply o (r, w))
unfolding finish_reply outcome_of settled mark_outbound_sent mark_outbound_failed Outbound.mark_sent
    Outbound.mark_failed Outbound.update_messages exec_context
finish_reply-Finished o (ok _) rows w none_left same new = record {
  answer = ground (arith, none_left);
  recorded =
      ground (arith, none_left)
      ∙ ap (update_where (Outbound.has_id o.id) (set_sent w.now)) same
      ∙ update-append (Outbound.has_id o.id) (set_sent w.now) rows o new (str_eq_refl o.id);
}
finish_reply-Finished o (err e) rows w none_left same new = record {
  answer = refl;
  recorded =
      ground (arith, none_left)
      ∙ ap (update_where (Outbound.has_id o.id) (set_failed e)) same
      ∙ update-append (Outbound.has_id o.id) (set_failed e) rows o new (str_eq_refl o.id);
}

module _ (rt : Runtime) (account : Account) (req : ReplyRequest) (m : InboundMessage) (url : Str)
    (payload : Json) where
  -- `CreateOutbound` has inserted its row and nothing else.
  record Inserted (w : World) (made : Result OutboundMessage × World) : Type 0 where
    row : made.0 ≡ ok (row_of account req m payload w)
    rows : made.1.db.outbound ≡ w.db.outbound ++ row_of account req m payload w ∷ []
    faults : made.1.db_faults ≡ []
    now : made.1.now ≡ w.now
    replies : made.1.replies ≡ w.replies
    posted : made.1.posted ≡ w.posted

  create_outbound-Inserted :
      (w : World)
      → Storable account w
      → req.response ≡ some payload
      → is_some (find_where (Inbound.has_id req.message_id) w.db.inbound) ≡ true
      → Inserted w (create_outbound (outbound_params account m req) w)
  unfolding create_outbound Outbound.create Outbound.insert_message Outbound.insert_payload
  create_outbound-Inserted w s given named = record {
    row = ground (arith, s.no_faults, s.known, s.fresh_id, given, named);
    rows = ground (arith, s.no_faults, s.known, s.fresh_id, given, named);
    faults = ground (arith, s.no_faults, s.known, s.fresh_id, given, named);
    now = ground (arith, s.no_faults);
    replies = ground (arith, s.no_faults);
    posted = ground (arith, s.no_faults);
  }

  -- `SendCallback` to a valid URL makes the POST and leaves the database alone.
  record Sent (w : World) (sent : Result (Unit {0}) × World) : Type 0 where
    ends : sent.0 ≡ callback_result (next_reply w)
    posted : sent.1.posted ≡ w.posted ++ (url, payload) ∷ []
    rows : sent.1.db.outbound ≡ w.db.outbound
    faults : sent.1.db_faults ≡ w.db_faults
    now : sent.1.now ≡ w.now

  send_callback-Sent :
      (w : World) → is_valid_callback_url rt url ≡ true → Sent w (send_callback rt url payload w)
  unfolding send_callback post
  send_callback-Sent w allowed = record {
    ends = rw allowed;
    posted = rw allowed;
    rows = rw allowed;
    faults = rw allowed;
    now = rw allowed;
  }

  finish_reply-Settled :
      (w v : World) (o : OutboundMessage) (sent : Result (Unit {0}) × World)
      → Storable account w
      → Inserted w (ok o, v)
      → Sent v sent
      → Settled account req m url payload w (finish_reply o sent)
  finish_reply-Settled w v o (r, u) s i t =
      let same : o ≡ row_of account req m payload w = cc (i.row) in
      let end_ =
        finish_reply-Finished o r w.db.outbound u (t.faults ∙ i.faults)
          (t.rows ∙ i.rows ∙ ap (λ x. w.db.outbound ++ x ∷ []) (sym same))
          (ap (λ (x : OutboundMessage). find_where (Outbound.has_id x.id) w.db.outbound) same
            ∙ s.fresh_id) in
      let asked : r ≡ callback_result (next_reply w) =
        t.ends ∙ ap (λ rs. callback_result (next (refused (lit "no answer")) rs).0) i.replies in
      let clock = t.now ∙ i.now in
      record {
        answer = end_.answer ∙ ap₂ outcome_of asked clock;
        posted = posted-finish o r u ∙ t.posted ∙ ap (λ x. x ++ (url, payload) ∷ []) i.posted;
        recorded =
            end_.recorded
            ∙ ap (λ x. w.db.outbound ++ x ∷ [])
                (ap₂ (λ a n. settled a n o) asked clock
                  ∙ ap (settled (callback_result (next_reply w)) w.now) same);
      }

  send_reply-Settled :
      (w : World) (made : Result OutboundMessage × World)
      → Storable account w
      → req.response ≡ some payload
      → is_valid_callback_url rt url ≡ true
      → Inserted w made
      → Settled account req m url payload w (send_reply rt url req made)
  unfolding send_reply
  send_reply-Settled w (err e, v) s given allowed i = absurd (cc (i.row))
  send_reply-Settled w (ok o, v) s given allowed i = finish_reply-Settled w v o _ s i (
      subst (λ p. Sent v (send_callback rt url p v)) (sym (ap json_or_null given))
        (send_callback-Sent v allowed))

module _ (rt : Runtime) (account : Account) (req : ReplyRequest) (url : Str) (payload : Json) where
  usable :
      (now : ℕ) (m : InboundMessage)
      → m.callback_url ≡ some url
      → not_expired now m.callback_expires_at ≡ true
      → valid_callback now m ≡ some url
  usable now m callback fresh = ground (arith, fresh) ∙ callback

  own_message :
      (m : InboundMessage) (w : World)
      → m.account_id ≡ account.id
      → reply_found rt account req (ok (some m), w)
        ≡ reply_to rt account req m (valid_callback w.now m) w
  unfolding reply_found
  own_message m w owned = ground (arith, (str_eq_iff m.account_id account.id).1 owned)

  abbrev lookup : World → Option InboundMessage
  lookup w = find_where (Inbound.has_id req.message_id) w.db.inbound

  to_send_reply :
      (w : World) (may : MayReply rt account req.message_id w.db w.now url)
      → reply_found rt account req (ok (lookup w), w)
        ≡ send_reply rt url req (create_outbound (outbound_params account may.message req) w)
  unfolding reply_to
  to_send_reply w may =
      ap (λ o. reply_found rt account req (ok o, w)) may.found
      ∙ own_message may.message w may.owned
      ∙ ap (λ o. reply_to rt account req may.message o w)
          (usable w.now may.message may.callback may.fresh)

  reply_found-Settled :
      (w : World) (may : MayReply rt account req.message_id w.db w.now url)
      → Storable account w
      → req.response ≡ some payload
      → Settled account req may.message url payload w
          (reply_found rt account req (ok (lookup w), w))
  reply_found-Settled w may s given =
      let m = may.message in
      subst (Settled account req m url payload w) (sym (to_send_reply w may)) (
        send_reply-Settled rt account req m url payload w
          (create_outbound (outbound_params account m req) w) s given may.allowed
          (create_outbound-Inserted rt account req m url payload w s given (ap is_some may.found)))

  after-Storable : (w : World) → Storable account w → Storable account (after w)
  after-Storable w s = record {
    no_faults = ap (λ fs. (next none fs).1) s.no_faults;
    known = s.known;
    fresh_id = s.fresh_id;
  }

  asks :
      (w : World)
      → w.db_faults ≡ []
      → is_empty req.message_id ≡ false
      → reply rt (some account) (some req) w ≡ reply_found rt account req (ok (lookup w), after w)
  unfolding reply find_inbound_by_id Inbound.find_by_id
  asks w none_left named =
      ground (arith, named)
      ∙ ap (reply_found rt account req)
          (get_context-Answers lookup w (ap (λ fs. (next none fs).0) none_left))

  -- When a request has a response and names a message that the account may reply to, the account
  -- is stored, the next id is new and no database call fails, the reply makes one POST of the
  -- response to the message's callback URL and inserts one outbound row. With a status from 200 to
  -- 299 the caller is told that the reply was delivered and the row is sent; with anything else
  -- the caller gets the callback error and the row has failed, with that answer's text.
  pub reply-Settled :
      (w : World) (may : MayReply rt account req.message_id w.db w.now url)
      → Storable account w
      → is_empty req.message_id ≡ false
      → req.response ≡ some payload
      → Settled account req may.message url payload w (reply rt (some account) (some req) w)
  reply-Settled w may s named given =
      let may' : MayReply rt account req.message_id (after w).db (after w).now url = may in
      let done = reply_found-Settled (after w) may' (after-Storable w s) given in
      subst (Settled account req may.message url payload w) (sym (asks w s.no_faults named))
        (record { answer = done.answer; posted = done.posted; recorded = done.recorded })
