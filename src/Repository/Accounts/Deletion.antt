-- ===== src/Repository/Accounts/Deletion.antt =====
-- What the deletion of an account leaves, with the actions of the foreign keys.
use kakao_relay.Prelude.{
  Str, str_eq, option_is, Bool, false, Option, none, some, List, [], ◌∷◌, map, ◌≡◌, refl, arith,
  All, select, delete_where,
}
use kakao_relay.Model.{Account, Session, ConversationMapping, InboundMessage, OutboundMessage}
use kakao_relay.World.{Database}
use kakao_relay.Repository.Accounts.{
  has_id, clear, unlink_session, unlink_conversation, unlink_outbound, delete_account,
}

-- No row is the account or refers to it.
pub record NoTrace (id : Str) (db : Database) : Type 0 where
  pub accounts : All (λ (a : Account). str_eq a.id id ≡ false) db.accounts
  pub sessions : All (λ (s : Session). option_is s.account_id id ≡ false) db.sessions
  pub conversations :
      All (λ (c : ConversationMapping). option_is c.account_id id ≡ false) db.conversations
  pub inbound : All (λ (m : InboundMessage). str_eq m.account_id id ≡ false) db.inbound
  pub outbound : All (λ (m : OutboundMessage). str_eq m.account_id id ≡ false) db.outbound

module _ {A : Type 0} where
  delete_where-None : (p : A → Bool) (xs : List A) → All (λ x. p x ≡ false) (delete_where p xs)
  unfolding delete_where select
  delete_where-None p [] = tt
  delete_where-None p (x ∷ xs) = ground (arith, delete_where-None p xs)

  map-All :
      {B : Type 0} (P : A → Type 0) (Q : B → Type 0) (f : A → B)
      → ((x : A) → P x → Q (f x))
      → (xs : List A) → All P xs
      → All Q (map f xs)
  map-All P Q f h [] t = tt
  map-All P Q f h (x ∷ xs) (p, ps) = (h x p, map-All P Q f h xs ps)

  All-of : (P : A → Type 0) → ((x : A) → P x) → (xs : List A) → All P xs
  All-of P h [] = tt
  All-of P h (x ∷ xs) = (h x, All-of P h xs)

option_is-clear : (id : Str) (o : Option Str) → option_is (clear id o) id ≡ false
option_is-clear id none = refl
option_is-clear id (some s) = ground arith

unlinked-account :
    (gone : List InboundMessage) (m : OutboundMessage)
    → (unlink_outbound gone m).account_id ≡ m.account_id
unlinked-account gone m = ground arith

-- After the deletion of an account, by the foreign keys' actions, no row is the account, and no
-- session, conversation or message refers to it.
pub delete_account-NoTrace : (id : Str) (db : Database) → NoTrace id (delete_account id db)
unfolding delete_account
delete_account-NoTrace id db = record {
  accounts = delete_where-None (has_id id) db.accounts;
  sessions =
      map-All (λ _. Unit) _ (unlink_session id) (λ s _. option_is-clear id s.account_id) db.sessions
        (All-of _ (λ _. tt) _);
  conversations =
      map-All (λ _. Unit) _ (unlink_conversation id) (λ c _. option_is-clear id c.account_id)
        db.conversations (All-of _ (λ _. tt) _);
  inbound = delete_where-None (λ (m : InboundMessage). str_eq m.account_id id) db.inbound;
  outbound =
      map-All (λ (m : OutboundMessage). str_eq m.account_id id ≡ false) _
        (unlink_outbound (select (λ (m : InboundMessage). str_eq m.account_id id) db.inbound))
        (λ m h. rw (unlinked-account _ m) h) _
        (delete_where-None (λ (m : OutboundMessage). str_eq m.account_id id) db.outbound);
}
