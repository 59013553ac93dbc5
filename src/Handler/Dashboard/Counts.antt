-- ===== src/Handler/Dashboard/Counts.antt =====
-- Bounds on the dashboard's numbers.
use kakao_relay.Prelude.{
  ℕ, ◌+◌, ◌≤◌, Bool, true, false, not, ◌&&◌, none, some, List, [], ◌∷◌, ◌≡◌, refl, arith, length,
  select, length-select-le, count_where, ltb,
}
use kakao_relay.Model.{
  pos, negsuc, Session, OutboundMessage, ConversationMapping, is_pending_pairing, is_paired_session,
  is_paired, is_failed,
}
use kakao_relay.World.{World, ok}
use kakao_relay.Handler.Dashboard.{Overview, get_overview_stats, Parameter, limit_or}

-- Whatever the query parameter is, the page limit is from 1 to 100 when the default is.
limit_or-bounds :
    (d : ℕ) (p : Parameter) → 1 ≤ d → d ≤ 100 → (1 ≤ limit_or d p) × (limit_or d p ≤ 100)
unfolding limit_or
limit_or-bounds d none low high = (low, high)
limit_or-bounds d (some (negsuc n)) low high = (low, high)
limit_or-bounds d (some (pos n)) low high = ground arith

-- Rows that pass a test and those that do not make up all rows.
pub count_where-not :
    {A : Type 0} (p : A → Bool) (xs : List A)
    → count_where p xs + count_where (λ x. not (p x)) xs ≡ length xs
unfolding count_where select
count_where-not p [] = refl
count_where-not p (x ∷ xs) = ground (arith, count_where-not p xs)

count_where-le : {A : Type 0} (p : A → Bool) (xs : List A) → count_where p xs ≤ length xs
unfolding count_where
count_where-le p xs = length-select-le p xs

-- Two tests that no row passes together.
count_where-disjoint :
    {A : Type 0} (p q : A → Bool) (xs : List A)
    → ((x : A) → p x ≡ true → q x ≡ false)
    → count_where p xs + count_where q xs ≤ length xs
unfolding count_where select
count_where-disjoint p q [] apart = omega arith
count_where-disjoint p q (x ∷ xs) apart = ground (arith, apart x, count_where-disjoint p q xs apart)

pending_not_paired :
    (now : ℕ) (s : Session)
    → (is_pending_pairing s.status && ltb now s.expires_at) ≡ true
    → is_paired_session s.status ≡ false
pending_not_paired now s h = ground arith

-- How the numbers fit together.
Consistent : Overview → World → Type 0
Consistent s w =
    (s.conversation_paired + s.conversation_unpaired ≡ length w.db.conversations)
    × (s.session_pending + s.session_paired ≤ s.session_total)
    × (s.outbound_failed ≤ s.outbound_total)

-- When the statistics are read, paired and other conversations make up all conversations,
-- the sessions that wait and those that are paired are together no more than all sessions, and no
-- more outbound messages have failed than there are.
overview-Consistent :
    (w w' : World) (s : Overview) → get_overview_stats w ≡ (ok s, w') → Consistent s w
unfolding get_overview_stats Consistent
overview-Consistent w w' s h = ground (
  arith,
  h,
  count_where-not (λ (c : ConversationMapping). is_paired c.state) w.db.conversations,
  count_where-disjoint (λ (s : Session). is_pending_pairing s.status && ltb w.now s.expires_at)
      (λ (s : Session). is_paired_session s.status) w.db.sessions (pending_not_paired w.now),
  count_where-le (λ (m : OutboundMessage). is_failed m.status) w.db.outbound,
)
