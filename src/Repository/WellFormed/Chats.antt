-- ===== src/Repository/WellFormed/Chats.antt =====
-- The statements on conversations keep the tables well-formed.
use kakao_relay.Prelude.{
  ℕ, Str, Bool, true, false, ◌≡◌, refl, ap, ap₂, ◌&&◌, none, some, List, [], ◌∷◌, ◌++◌, All-append,
  All-select_keep, is_some, find_where, update_where, delete_where, Bool-cases, Option-cases, inl,
  inr, arith, if◌then◌else◌,
}
use kakao_relay.Prelude.Keys.{
  Distinct-append, Distinct-update_where, Distinct-select, All-update_where, find_where-none,
  str_eq_sym,
}
use kakao_relay.Prelude.Unique.{Unique-append, Unique-update_where, Unique-select}
use kakao_relay.Model.{ConversationMapping}
use kakao_relay.World.{Database}
use kakao_relay.Repository.Conversations
use kakao_relay.Repository.Statements.{linked, with_conversations}
use kakao_relay.Repository.WellFormed.{WellFormed, ConversationsOk, same_chat}

same_chat-sym : (c d : ConversationMapping) → same_chat c d ≡ same_chat d c
same_chat-sym c d =
    ap₂ (λ a b. a && b) (str_eq_sym c.kakao_channel_id d.kakao_channel_id)
      (str_eq_sym c.plusfriend_user_key d.plusfriend_user_key)

with_conversations-WellFormed :
    (db : Database) (rows : List ConversationMapping)
    → WellFormed db
    → ConversationsOk db.accounts rows
    → WellFormed (with_conversations db rows)
with_conversations-WellFormed db rows wf good = record {
  accounts = wf.accounts;
  sessions = wf.sessions;
  conversations = good;
  inbound = wf.inbound;
  outbound = wf.outbound;
}

pub update_conversations-WellFormed :
    (p : ConversationMapping → Bool) (f : ConversationMapping → ConversationMapping) (db : Database)
    → ((c : ConversationMapping)
        → ((f c).id ≡ c.id)
          × ((f c).conversation_key ≡ c.conversation_key)
          × ((f c).kakao_channel_id ≡ c.kakao_channel_id)
          × ((f c).plusfriend_user_key ≡ c.plusfriend_user_key))
    → ((c : ConversationMapping)
        → linked c.account_id db.accounts ≡ true
        → linked (f c).account_id db.accounts ≡ true)
    → WellFormed db
    → WellFormed (with_conversations db (update_where p f db.conversations))
update_conversations-WellFormed p f db same kept wf =
    with_conversations-WellFormed db (update_where p f db.conversations) wf (record {
      ids = Distinct-update_where _ p f (λ c. (same c).0) db.conversations wf.conversations.ids;
      keys = Distinct-update_where _ p f (λ c. (same c).1) db.conversations wf.conversations.keys;
      chats =
          Unique-update_where same_chat p f (λ d c. rw ((same d).2, (same d).3) refl)
            (λ d c. rw ((same c).2, (same c).3) refl) db.conversations wf.conversations.chats;
      links = All-update_where _ p f kept db.conversations wf.conversations.links;
    })

pub delete_conversations-WellFormed :
    (p : ConversationMapping → Bool) (db : Database)
    → WellFormed db
    → WellFormed (with_conversations db (delete_where p db.conversations))
unfolding delete_where
delete_conversations-WellFormed p db wf =
    with_conversations-WellFormed db (delete_where p db.conversations) wf (record {
      ids = Distinct-select _ _ db.conversations wf.conversations.ids;
      keys = Distinct-select _ _ db.conversations wf.conversations.keys;
      chats = Unique-select _ _ db.conversations wf.conversations.chats;
      links = All-select_keep _ _ db.conversations wf.conversations.links;
    })

-- The row of an upsert whose key was not found.
insert_conversation-WellFormed :
    (id : Str) (p : Conversations.UpsertConversationParams) (now : ℕ) (db : Database)
    → find_where (Conversations.has_key p.conversation_key) db.conversations ≡ none
    → is_some (find_where (Conversations.clashes id p) db.conversations) ≡ false
    → WellFormed db
    → WellFormed
        (with_conversations db (db.conversations ++ Conversations.new_conversation id p now ∷ []))
insert_conversation-WellFormed id p now db fresh free wf =
    let new = Conversations.new_conversation id p now in
    with_conversations-WellFormed db (db.conversations ++ new ∷ []) wf (record {
      ids = Distinct-append _ db.conversations new wf.conversations.ids (
          find_where-none (Conversations.clashes id p) _ db.conversations (λ c h. ground (arith, h))
            free);
      keys = Distinct-append _ db.conversations new wf.conversations.keys (
          find_where-none (Conversations.has_key p.conversation_key) _ db.conversations (λ c h. h)
            (ap is_some fresh));
      chats = Unique-append same_chat same_chat-sym db.conversations new wf.conversations.chats (
          find_where-none (Conversations.clashes id p) _ db.conversations (λ c h. ground (arith, h))
            free);
      links = All-append _ db.conversations (new ∷ []) wf.conversations.links (refl, tt);
    })

-- The two ends of an upsert.
module _ (id : Str) (p : Conversations.UpsertConversationParams) (now : ℕ) (db : Database) where
  pub upsert-refreshes :
      (c : ConversationMapping)
      → find_where (Conversations.has_key p.conversation_key) db.conversations ≡ some c
      → (Conversations.upsert_row id p now db).1
        ≡ with_conversations db (
            update_where
              (Conversations.has_key p.conversation_key)
              (Conversations.refresh p now)
              db.conversations)
  unfolding Conversations.upsert_row
  upsert-refreshes c found = ground (arith, found)

  pub upsert-inserts :
      find_where (Conversations.has_key p.conversation_key) db.conversations ≡ none
      → (Conversations.upsert_row id p now db).1 ≡ (
          if is_some (find_where (Conversations.clashes id p) db.conversations)
          then db
          else with_conversations db
              (db.conversations ++ Conversations.new_conversation id p now ∷ []))
  unfolding Conversations.upsert_row
  upsert-inserts fresh = ground (arith, fresh)

  pub upsert_row-WellFormed : WellFormed db → WellFormed (Conversations.upsert_row id p now db).1
  upsert_row-WellFormed wf =
      elim (Option-cases (find_where (Conversations.has_key p.conversation_key) db.conversations)) [
        | inr (c, found) ↦ rw (upsert-refreshes c found) (
            update_conversations-WellFormed (Conversations.has_key p.conversation_key)
              (Conversations.refresh p now) db (λ c. (refl, refl, refl, refl)) (λ c h. h) wf)
        | inl fresh ↦
            rw (upsert-inserts fresh)
              (elim (Bool-cases
                (is_some (find_where (Conversations.clashes id p) db.conversations))) [
                  | inl clash ↦ rw clash wf
                  | inr free ↦ rw free (insert_conversation-WellFormed id p now db fresh free wf)
                ])
      ]
