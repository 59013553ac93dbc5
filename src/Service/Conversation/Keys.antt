-- ===== src/Service/Conversation/Keys.antt =====
-- Conversation keys: the channel, a colon and the user.
use kakao_relay.Prelude.{
  Str, false, some, [], ◌∷◌, ◌++◌, ◌≡◌, refl, arith, All, split, cons_part, ◌==◌,
}
use kakao_relay.Service.Conversation.{build_conversation_key}
use kakao_relay.Service.Session.{second_part, kakao_user_of}

-- No character is a colon.
abbrev pub NoColon : Str → Type 0
NoColon s = All (λ c. (c == b':') ≡ false) s

-- Two keys are equal only for the same channel and the same user, when the channels have no colon.
pub build_conversation_key-injective :
    (c d u v : Str)
    → NoColon c
    → NoColon d
    → build_conversation_key c u ≡ build_conversation_key d v
    → (c ≡ d) × (u ≡ v)
unfolding build_conversation_key
build_conversation_key-injective [] [] u v h k e = ground (arith, e)
build_conversation_key-injective [] (b ∷ d) u v h k e = ground (arith, e, k)
build_conversation_key-injective (a ∷ c) [] u v h k e = ground (arith, e, h)
build_conversation_key-injective (a ∷ c) (b ∷ d) u v (h, hs) (k, ks) e =
    ground (arith, e, build_conversation_key-injective c d u v hs ks)

split-NoColon : (s : Str) → NoColon s → split b':' s ≡ s ∷ []
unfolding split cons_part
split-NoColon [] h = refl
split-NoColon (c ∷ s) (h, hs) = rw (h, split-NoColon s hs) refl

split-append : (s t : Str) → NoColon s → split b':' (s ++ b':' ∷ t) ≡ s ∷ split b':' t
unfolding split cons_part
split-append [] t h = refl
split-append (c ∷ s) t (h, hs) = rw (h, split-append s t hs) refl

-- The user that the status and the pairing event report is the one of the key, when neither it
-- nor the channel has a colon.
kakao_user_of-key :
    (c u : Str) → NoColon c → NoColon u → kakao_user_of (build_conversation_key c u) ≡ some u
unfolding kakao_user_of build_conversation_key second_part
kakao_user_of-key c u h k = rw (split-append c u h, split-NoColon u k) refl
