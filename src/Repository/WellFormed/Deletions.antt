-- ===== src/Repository/WellFormed/Deletions.antt =====
-- What a deleted account leaves is well-formed.
use kakao_relay.Prelude.{
  Str, str_eq, str_eq_iff, option_is, Bool, true, false, not, ◌≡◌, refl, sym, ap, ◌∙◌, Option, none,
  some, List, [], ◌∷◌, All, select, is_some, find_where, delete_where, All-select_keep, Bool-cases,
  inl, inr, arith, if◌then◌else◌,
}
use kakao_relay.Prelude.Keys.{
  Distinct-select, Distinct-map, All-mapped, is_some-select, is_some-split, find_where-same,
  str_eq_sym,
}
use kakao_relay.Model.{InboundMessage, OutboundMessage}
use kakao_relay.World.{Database}
use kakao_relay.Repository.Accounts.{
  has_id, clear, unlink_session, unlink_conversation, unlink_outbound, delete_account,
}
use kakao_relay.Repository.Outbound.{inbound_exists}
use kakao_relay.Repository.Statements.{links}
use kakao_relay.Prelude.Unique.{Unique-map, Unique-select}
use kakao_relay.Repository.WellFormed.{WellFormed, same_chat}

module _ (id : Str) (db : Database) where
  -- Another account is still there.
  links-other :
      (s : Str)
      → str_eq s id ≡ false
      → links (some s) db ≡ true
      → links (some s) (delete_account id db) ≡ true
  unfolding delete_account delete_where
  links-other s other h =
      is_some-select (has_id s) (λ a. not (has_id id a))
        (λ a same.
          ground (arith, same, other, str_eq_iff a.id s, str_eq_iff a.id id, str_eq_iff s id))
        db.accounts h

  links-clear :
      (o : Option Str) → links o db ≡ true → links (clear id o) (delete_account id db) ≡ true
  links-clear none h = refl
  links-clear (some s) h = elim (Bool-cases (str_eq s id)) [
    | inl same ↦ rw same refl
    | inr other ↦ rw other (links-other s other h)
  ]

  -- Rows of other accounts keep their link.
  rows-linked :
      {A : Type 0} (account_of : A → Str) (xs : List A)
      → All (λ x. links (some (account_of x)) db ≡ true) xs
      → All
          (λ x. links (some (account_of x)) (delete_account id db) ≡ true)
          (delete_where (λ x. str_eq (account_of x) id) xs)
  unfolding delete_where select
  rows-linked account_of [] h = tt
  rows-linked account_of (x ∷ xs) (h, hs) = elim (Bool-cases (str_eq (account_of x) id)) [
    | inl same ↦ rw same (rows-linked account_of xs hs)
    | inr other ↦ rw other (links-other (account_of x) other h, rows-linked account_of xs hs)
  ]

  abbrev gone : List InboundMessage
  gone = select (λ (m : InboundMessage). str_eq m.account_id id) db.inbound

  abbrev left : List InboundMessage
  left = delete_where (λ (m : InboundMessage). str_eq m.account_id id) db.inbound

  -- The two ways to look for the message that a reply names.
  same_lookup :
      (ref : Str) (rows : List InboundMessage)
      → find_where (λ (i : InboundMessage). option_is (some ref) i.id) rows
        ≡ find_where (λ (i : InboundMessage). str_eq i.id ref) rows
  same_lookup ref rows = find_where-same _ _ (λ i. str_eq_sym ref i.id) rows

  abbrev is_gone : Option Str → Bool
  is_gone o = is_some (find_where (λ (i : InboundMessage). option_is o i.id) gone)

  -- A reply loses its reference exactly if the message goes with the account.
  unlinked-ref :
      (m : OutboundMessage)
      → (unlink_outbound gone m).inbound_message_id
        ≡ (if is_gone m.inbound_message_id then none else m.inbound_message_id)
  unlinked-ref m = elim (Bool-cases (is_gone m.inbound_message_id)) [
    | inl yes_gone ↦ rw yes_gone refl
    | inr not_gone ↦ rw not_gone refl
  ]

  left-exists :
      (o : Option Str)
      → inbound_exists o db.inbound ≡ true
      → inbound_exists (if is_gone o then none else o) left ≡ true
  unfolding delete_where
  left-exists none h = elim (Bool-cases (is_gone none)) [
    | inl yes_gone ↦ rw yes_gone refl
    | inr not_gone ↦ rw not_gone refl
  ]
  left-exists (some ref) h = elim (Bool-cases (is_gone (some ref))) [
    | inl yes_gone ↦ rw yes_gone refl
    | inr not_gone ↦ rw not_gone (
        is_some-split (λ (i : InboundMessage). str_eq i.id ref)
          (λ (m : InboundMessage). str_eq m.account_id id) db.inbound h
          (sym (ap is_some (same_lookup ref gone)) ∙ not_gone))
  ]

  replies-left :
      (m : OutboundMessage)
      → inbound_exists m.inbound_message_id db.inbound ≡ true
      → inbound_exists (unlink_outbound gone m).inbound_message_id left ≡ true
  replies-left m h = rw (unlinked-ref m) (left-exists m.inbound_message_id h)

  unlinked-account : (m : OutboundMessage) → (unlink_outbound gone m).account_id ≡ m.account_id
  unlinked-account m = ground arith

  unlinked-id : (m : OutboundMessage) → (unlink_outbound gone m).id ≡ m.id
  unlinked-id m = ground arith

  -- The deletion of an account keeps the tables well-formed.
  pub delete_account-WellFormed : WellFormed db → WellFormed (delete_account id db)
  unfolding delete_account delete_where
  delete_account-WellFormed wf = record {
    accounts = record {
      ids = Distinct-select _ _ db.accounts wf.accounts.ids;
      hashes = Unique-select _ _ db.accounts wf.accounts.hashes;
    };
    sessions = record {
      ids = Distinct-map _ (unlink_session id) (λ s. refl) db.sessions wf.sessions.ids;
      hashes = Distinct-map _ (unlink_session id) (λ s. refl) db.sessions wf.sessions.hashes;
      codes = Distinct-map _ (unlink_session id) (λ s. refl) db.sessions wf.sessions.codes;
      links =
          All-mapped _ _ (unlink_session id) (λ s h. links-clear s.account_id h) db.sessions
            wf.sessions.links;
    };
    conversations = record {
      ids =
          Distinct-map _ (unlink_conversation id) (λ c. refl) db.conversations wf.conversations.ids;
      keys =
          Distinct-map _ (unlink_conversation id) (λ c. refl) db.conversations
            wf.conversations.keys;
      chats =
          Unique-map same_chat (unlink_conversation id) (λ y x. refl) db.conversations
            wf.conversations.chats;
      links =
          All-mapped _ _ (unlink_conversation id) (λ c h. links-clear c.account_id h)
            db.conversations wf.conversations.links;
    };
    inbound = record {
      ids = Distinct-select _ _ db.inbound wf.inbound.ids;
      events = Unique-select _ _ db.inbound wf.inbound.events;
      links = rows-linked (λ (m : InboundMessage). m.account_id) db.inbound wf.inbound.links;
    };
    outbound = record {
      ids =
          Distinct-map _ (unlink_outbound gone) unlinked-id _
            (Distinct-select _ _ db.outbound wf.outbound.ids);
      links =
          All-mapped _ _ (unlink_outbound gone) (λ m h. rw (unlinked-account m) h) _
            (rows-linked (λ (m : OutboundMessage). m.account_id) db.outbound wf.outbound.links);
      replies =
          All-mapped _ _ (unlink_outbound gone) replies-left _
            (All-select_keep _ _ db.outbound wf.outbound.replies);
    };
  }
