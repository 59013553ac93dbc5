-- ===== src/Repository/WellFormed/Messages.antt =====
-- The statements on messages keep the tables well-formed.
use kakao_relay.Prelude.{
  ℕ, Str, str_eq, Bool, true, false, ◌≡◌, refl, ◌∙◌, ap, Option, none, some, List, [], ◌∷◌, ◌++◌,
  ◌||◌, ◌&&◌, All-append, All-map, is_some, find_where, update_where, Bool-cases, inl, inr, arith,
}
use kakao_relay.Prelude.Keys.{
  Distinct-append, Distinct-update_where, All-update_where, find_where-none, is_some-append,
  is_some-update_where,
}
use kakao_relay.Model.{Json, InboundMessage, OutboundMessage}
use kakao_relay.World.{Database}
use kakao_relay.Repository.Inbound
use kakao_relay.Repository.Outbound
use kakao_relay.Repository.Outbound.{inbound_exists}
use kakao_relay.Repository.Statements.{linked}
use kakao_relay.Repository.WellFormed.{WellFormed, InboundOk, OutboundOk, same_source}
use kakao_relay.Prelude.Unique.{Unique-append, Unique-update_where, same_value, same_value-sym}

-- Messages: the replies still find theirs.
with_inbound-WellFormed :
    (db : Database) (rows : List InboundMessage)
    → WellFormed db
    → InboundOk db.accounts rows
    → ((ref : Str)
        → is_some (find_where (Inbound.has_id ref) db.inbound) ≡ true
        → is_some (find_where (Inbound.has_id ref) rows) ≡ true)
    → WellFormed (record db { inbound = rows })
with_inbound-WellFormed db rows wf good finds = record {
  accounts = wf.accounts;
  sessions = wf.sessions;
  conversations = wf.conversations;
  inbound = good;
  outbound = record {
    ids = wf.outbound.ids;
    links = wf.outbound.links;
    replies =
        All-map _ _ (λ m h. exists_after m.inbound_message_id h) db.outbound wf.outbound.replies;
  };
}
  where
    exists_after :
        (o : Option Str) → inbound_exists o db.inbound ≡ true → inbound_exists o rows ≡ true
    exists_after none h = h
    exists_after (some ref) h = finds ref h

pub update_inbound-WellFormed :
    (p : InboundMessage → Bool) (f : InboundMessage → InboundMessage) (db : Database)
    → ((m : InboundMessage)
        → ((f m).id ≡ m.id)
          × ((f m).account_id ≡ m.account_id)
          × ((f m).source_event_id ≡ m.source_event_id))
    → WellFormed db
    → WellFormed (record db { inbound = update_where p f db.inbound })
update_inbound-WellFormed p f db same wf =
    with_inbound-WellFormed db (update_where p f db.inbound) wf
      (record {
        ids = Distinct-update_where _ p f (λ m. (same m).0) db.inbound wf.inbound.ids;
        events =
            Unique-update_where same_source p f (λ n m. rw ((same n).2) refl)
              (λ n m. rw ((same m).2) refl) db.inbound wf.inbound.events;
        links = All-update_where _ p f (λ m h. rw ((same m).1) h) db.inbound wf.inbound.links;
      })
      (λ ref h.
        rw
          (is_some-update_where (Inbound.has_id ref) p f (λ m. ap (λ i. str_eq i ref) (same m).0)
            db.inbound)
          h)

no_source :
    (m : InboundMessage) (o : Option Str)
    → Inbound.same_event o m ≡ false
    → same_value m.source_event_id o ≡ false
no_source m none h = same_value-sym m.source_event_id none
no_source m (some e) h = same_value-sym m.source_event_id (some e) ∙ h

pub insert_inbound-WellFormed :
    (id : Str) (p : Inbound.CreateInboundParams) (now : ℕ) (db : Database)
    → WellFormed db
    → WellFormed (Inbound.insert_message id p now db).1
unfolding Inbound.insert_message
insert_inbound-WellFormed id p now db wf =
    let new = Inbound.new_message id p now in
    let same =
      λ (m : InboundMessage). Inbound.has_id id m || Inbound.same_event p.source_event_id m in
    elim (Bool-cases (is_some (find_where same db.inbound))) [
      | inl clash ↦ rw clash wf
      | inr free ↦ elim (Bool-cases (linked (some p.account_id) db.accounts)) [
        | inr unknown ↦ rw (free, unknown) wf
        | inl known ↦
            rw (free, known)
              (with_inbound-WellFormed db (db.inbound ++ new ∷ []) wf
                (record {
                  ids =
                      Distinct-append _ db.inbound new wf.inbound.ids
                        (find_where-none same _ db.inbound (λ m h. ground (arith, h)) free);
                  events =
                      Unique-append same_source
                        (λ m n. same_value-sym m.source_event_id n.source_event_id) db.inbound new
                        wf.inbound.events
                        (find_where-none same _ db.inbound
                          (λ m h. no_source m p.source_event_id (ground (arith, h))) free);
                  links = All-append _ db.inbound (new ∷ []) wf.inbound.links (known, tt);
                })
                (λ ref h. is_some-append (Inbound.has_id ref) db.inbound (new ∷ []) h))
      ]
    ]

with_outbound-WellFormed :
    (db : Database) (rows : List OutboundMessage)
    → WellFormed db
    → OutboundOk db.accounts db.inbound rows
    → WellFormed (record db { outbound = rows })
with_outbound-WellFormed db rows wf good = record {
  accounts = wf.accounts;
  sessions = wf.sessions;
  conversations = wf.conversations;
  inbound = wf.inbound;
  outbound = good;
}

pub update_outbound-WellFormed :
    (p : OutboundMessage → Bool) (f : OutboundMessage → OutboundMessage) (db : Database)
    → ((m : OutboundMessage)
        → ((f m).id ≡ m.id)
          × ((f m).account_id ≡ m.account_id)
          × ((f m).inbound_message_id ≡ m.inbound_message_id))
    → WellFormed db
    → WellFormed (record db { outbound = update_where p f db.outbound })
update_outbound-WellFormed p f db same wf =
    with_outbound-WellFormed db (update_where p f db.outbound) wf (record {
      ids = Distinct-update_where _ p f (λ m. (same m).0) db.outbound wf.outbound.ids;
      links = All-update_where _ p f (λ m h. rw ((same m).1) h) db.outbound wf.outbound.links;
      replies = All-update_where _ p f (λ m h. rw ((same m).2) h) db.outbound wf.outbound.replies;
    })

pub insert_outbound-WellFormed :
    (id : Str) (p : Outbound.CreateOutboundParams) (now : ℕ) (db : Database) (o : Option Json)
    → WellFormed db
    → WellFormed (Outbound.insert_payload id p now db o).1
unfolding Outbound.insert_payload
insert_outbound-WellFormed id p now db none wf = wf
insert_outbound-WellFormed id p now db (some payload) wf =
    let new = Outbound.new_message id p payload now in
    elim (Bool-cases (is_some (find_where (Outbound.has_id id) db.outbound))) [
      | inl clash ↦ rw clash wf
      | inr free ↦
          elim (Bool-cases (
            linked (some p.account_id) db.accounts
            && inbound_exists p.inbound_message_id db.inbound)) [
              | inr unknown ↦ rw (free, unknown) wf
              | inl known ↦
                  rw (free, known)
                    (with_outbound-WellFormed db (db.outbound ++ new ∷ []) wf (record {
                      ids =
                          Distinct-append _ db.outbound new wf.outbound.ids
                            (find_where-none (Outbound.has_id id) _ db.outbound (λ m h. h) free);
                      links =
                          All-append _ db.outbound (new ∷ []) wf.outbound.links
                            (ground (arith, known), tt);
                      replies =
                          All-append _ db.outbound (new ∷ []) wf.outbound.replies
                            (ground (arith, known), tt);
                    }))
            ]
    ]
