-- ===== src/Service/Callback/Hosts.antt =====
-- Which callback URLs are accepted.
use kakao_relay.Prelude.{
  Str, str_eq_iff, true, Option, none, some, List, [], ◌∷◌, ◌++◌, lit, reverse, ◌≡◌, refl, sym, ap,
  subst, ◌∙◌, arith, ◌⊎◌, inl, inr, ◌↔◌, has_prefix, has_suffix, to_lower, Bool-cases,
}
use mathlib.Core.List.{reverse-append, reverse-reverse}
use kakao_relay.Runtime.{Runtime, Url}
use kakao_relay.Service.Callback.{
  allowed_callback_hosts, has_allowed_suffix, is_allowed_url, is_valid_callback_url,
}

has_prefix_iff : (s p : Str) → (has_prefix s p ≡ true) ↔ ((rest : Str) × (s ≡ p ++ rest))
unfolding has_prefix
has_prefix_iff s [] = (λ _. (s, refl), λ _. refl)
has_prefix_iff [] (b ∷ p) = ((λ h. cc), (λ (rest, e). cc))
has_prefix_iff (a ∷ s) (b ∷ p) = (
  λ h. let (rest, e) = (has_prefix_iff s p).0 (ground arith) in (rest, ground (arith, e)),
  λ (rest, e). ground (arith, (has_prefix_iff s p).1 (rest, ground (arith, e))),
)

has_suffix_iff : (s p : Str) → (has_suffix s p ≡ true) ↔ ((rest : Str) × (s ≡ rest ++ p))
unfolding has_suffix
has_suffix_iff s p = (
  λ h.
      let (rest, e) = (has_prefix_iff (reverse s) (reverse p)).0 h in
      (
        reverse rest,
        sym (reverse-reverse s)
            ∙ ap reverse e
            ∙ reverse-append (reverse p) rest
            ∙ ap (λ t. reverse rest ++ t) (reverse-reverse p),
      ),
  λ (rest, e).
      (has_prefix_iff (reverse s) (reverse p)).1
        (reverse rest, ap reverse e ∙ reverse-append rest p),
)

-- The host ends in one of the suffixes.
pub EndsIn : Str → List Str → Type 0
EndsIn host [] = ⊥
EndsIn host (suffix ∷ rest) = ((before : Str) × (host ≡ before ++ suffix)) ⊎ EndsIn host rest

allowed_suffix_iff :
    (host : Str) (suffixes : List Str)
    → (has_allowed_suffix host suffixes ≡ true) ↔ EndsIn host suffixes
unfolding has_allowed_suffix EndsIn
allowed_suffix_iff host [] = ((λ h. cc), (λ h. absurd h))
allowed_suffix_iff host (suffix ∷ rest) = (
  λ h. elim (Bool-cases (has_suffix host suffix)) [
    | inl here ↦ inl ((has_suffix_iff host suffix).0 here)
    | inr there ↦ inr ((allowed_suffix_iff host rest).0 (ground arith))
  ],
  λ e. elim e [
    | inl here ↦ ground (arith, (has_suffix_iff host suffix).1 here)
    | inr there ↦ ground (arith, (allowed_suffix_iff host rest).1 there)
  ],
)

-- A URL that `url.Parse` takes apart, with scheme https and a host that in lower case ends in one
-- of Kakao's three domains, the dot included.
pub KakaoUrl : Runtime → Str → Type 0
KakaoUrl rt url =
    (u : Url) × ((rt.parse_url url ≡ some u)
      × ((u.scheme ≡ lit "https")
          × EndsIn (to_lower rt.lower_table u.hostname)
              (lit ".kakao.com" ∷ lit ".kakaocdn.net" ∷ lit ".kakaoenterprise.com" ∷ [])))

abbrev OnKakao : Runtime → Url → Type 0
OnKakao rt u =
    (u.scheme ≡ lit "https") × EndsIn (to_lower rt.lower_table u.hostname) allowed_callback_hosts

allowed-OnKakao : (rt : Runtime) (u : Url) → (is_allowed_url rt (some u) ≡ true) ↔ OnKakao rt u
unfolding is_allowed_url
allowed-OnKakao rt u =
    let https = str_eq_iff u.scheme (lit "https") in
    let ends = allowed_suffix_iff (to_lower rt.lower_table u.hostname) allowed_callback_hosts in
    (
      λ h. (ground (arith, h, https), ends.0 (ground (arith, h))),
      λ (same, end). rw (https.1 same) (ends.1 end),
    )

allowed-EndsIn :
    (rt : Runtime) (o : Option Url)
    → (is_allowed_url rt o ≡ true) ↔ ((u : Url) × ((o ≡ some u) × OnKakao rt u))
unfolding is_allowed_url
allowed-EndsIn rt none = ((λ h. cc), (λ (u, (h, rest)). cc))
allowed-EndsIn rt (some u) = (
  λ h. (u, (refl, (allowed-OnKakao rt u).0 h)),
  λ (v, (e, on)). (allowed-OnKakao rt u).1 (subst (OnKakao rt) (some-injective (sym e)) on),
)
  where
    some-injective : {v u : Url} → some v ≡ some u → v ≡ u
    some-injective e = cc

-- A callback URL is valid exactly when `url.Parse` takes it apart, its scheme is https, and its host
-- in lower case ends in .kakao.com, .kakaocdn.net or .kakaoenterprise.com.
pub is_valid_callback_url_iff :
    (rt : Runtime) (url : Str) → (is_valid_callback_url rt url ≡ true) ↔ KakaoUrl rt url
unfolding is_valid_callback_url KakaoUrl
is_valid_callback_url_iff rt url = allowed-EndsIn rt (rt.parse_url url)
