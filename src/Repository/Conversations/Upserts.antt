-- ===== src/Repository/Conversations/Upserts.antt =====
-- What an upsert of a conversation stores.
use kakao_relay.Prelude.{
  ℕ, Str, str_eq, str_eq_refl, str_eq_iff, Bool, true, false, Option, none, some, List, [], ◌∷◌,
  ◌++◌, ◌≡◌, refl, sym, ap, subst, ◌∙◌, arith, find_where, update_where, Option-cases, inl, inr,
  find_where-true, find_where-update_where, find-append,
}
use kakao_relay.Model.{ConversationMapping, PairingState, unpaired}
use kakao_relay.World.{Database, ok}
use kakao_relay.Repository.Conversations.{
  has_key, UpsertConversationParams, new_conversation, refresh, upsert_row,
}

-- The pairing of a row.
abbrev pub pairing : Option ConversationMapping → PairingState × Option Str
pairing none = (unpaired, none)
pairing (some c) = (c.state, c.account_id)

-- What holds after an upsert that returns a row.
pub record Upserted (p : UpsertConversationParams) (now : ℕ) (db db' : Database)
    (c : ConversationMapping) : Type 0 where
  pub stored : find_where (has_key p.conversation_key) db'.conversations ≡ some c
  pub keeps_pairing :
      (c.state, c.account_id) ≡ pairing (find_where (has_key p.conversation_key) db.conversations)
  pub callback : c.last_callback_url ≡ p.callback_url
  pub expiry : c.last_callback_expires_at ≡ p.callback_expires_at
  pub seen : c.last_seen_at ≡ now
  pub others :
      (key : Str)
      → str_eq p.conversation_key key ≡ false
      → find_where (has_key key) db'.conversations ≡ find_where (has_key key) db.conversations

find-append_other :
    {A : Type 0} (p : A → Bool) (xs : List A) (x : A)
    → p x ≡ false
    → find_where p (xs ++ x ∷ []) ≡ find_where p xs
unfolding find_where
find-append_other p [] x no' = rw no' refl
find-append_other p (y ∷ ys) x no' = ground (arith, find-append_other p ys x no')

find-update_other :
    {A : Type 0} (p q : A → Bool) (f : A → A)
    → ((x : A) → q x ≡ true → (p x ≡ false) × (p (f x) ≡ false))
    → (xs : List A) → find_where p (update_where q f xs) ≡ find_where p xs
unfolding find_where update_where
find-update_other p q f apart [] = refl
find-update_other p q f apart (x ∷ xs) = ground (arith, apart x, find-update_other p q f apart xs)

other_key : (a b k : Str) → str_eq k a ≡ true → str_eq a b ≡ false → str_eq k b ≡ false
other_key a b k same other = subst (λ x. str_eq x b ≡ false) (sym ((str_eq_iff k a).0 same)) other

module _ (id : Str) (p : UpsertConversationParams) (now : ℕ) (db : Database) where
  refreshed-Upserted :
      (c : ConversationMapping)
      → find_where (has_key p.conversation_key) db.conversations ≡ some c
      → Upserted p now db
          (record db {
            conversations =
                update_where (has_key p.conversation_key) (refresh p now) db.conversations;
          })
          (refresh p now c)
  refreshed-Upserted c found = record {
    stored =
        find_where-update_where (has_key p.conversation_key) (has_key p.conversation_key)
          (refresh p now) (λ x h. refl) db.conversations c found
        ∙ ground (arith, find_where-true (has_key p.conversation_key) db.conversations c found);
    keeps_pairing = ap pairing (sym found);
    callback = refl;
    expiry = refl;
    seen = refl;
    others = λ key other.
        find-update_other (has_key key) (has_key p.conversation_key) (refresh p now)
          (λ x h. (
            other_key p.conversation_key key x.conversation_key h other,
            other_key p.conversation_key key x.conversation_key h other,
          ))
          db.conversations;
  }

  inserted-Upserted :
      find_where (has_key p.conversation_key) db.conversations ≡ none
      → Upserted p now db
          (record db { conversations = db.conversations ++ new_conversation id p now ∷ [] })
          (new_conversation id p now)
  inserted-Upserted new = record {
    stored =
        find-append (has_key p.conversation_key) db.conversations (new_conversation id p now) new
          (str_eq_refl p.conversation_key);
    keeps_pairing = ap pairing (sym new);
    callback = refl;
    expiry = refl;
    seen = refl;
    others = λ key other.
        find-append_other (has_key key) db.conversations (new_conversation id p now) other;
  }

  upsert-old :
      (old c : ConversationMapping) (db' : Database)
      → find_where (has_key p.conversation_key) db.conversations ≡ some old
      → upsert_row id p now db ≡ (ok c, db')
      → (refresh p now old ≡ c)
        × (record db {
          conversations =
              update_where (has_key p.conversation_key) (refresh p now) db.conversations;
        }
            ≡ db')
  unfolding upsert_row
  upsert-old old c db' found h = ground (arith, h, found)

  upsert-new :
      (c : ConversationMapping) (db' : Database)
      → find_where (has_key p.conversation_key) db.conversations ≡ none
      → upsert_row id p now db ≡ (ok c, db')
      → (new_conversation id p now ≡ c)
        × (record db { conversations = db.conversations ++ new_conversation id p now ∷ [] } ≡ db')
  unfolding upsert_row
  upsert-new c db' found h = ground (arith, h, found)

  -- An upsert that returns a row has stored that row under the request's key, with the request's
  -- callback and the time of now. The pairing of a row that was there is kept, a new row is not
  -- paired, and the lookup of every other key is as before.
  pub upsert_row-Upserted :
      (c : ConversationMapping) (db' : Database)
      → upsert_row id p now db ≡ (ok c, db')
      → Upserted p now db db' c
  upsert_row-Upserted c db' h =
      elim (Option-cases (find_where (has_key p.conversation_key) db.conversations)) [
        | inl new ↦
            let (row, rows) = upsert-new c db' new h in
            subst (λ c. Upserted p now db db' c) row
              (subst (λ db'. Upserted p now db db' (new_conversation id p now)) rows
                (inserted-Upserted new))
        | inr (old, found) ↦
            let (row, rows) = upsert-old old c db' found h in
            subst (λ c. Upserted p now db db' c) row
              (subst (λ db'. Upserted p now db db' (refresh p now old)) rows
                (refreshed-Upserted old found))
      ]
