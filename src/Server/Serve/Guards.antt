-- ===== src/Server/Serve/Guards.antt =====
-- cmd/server/main.go: what requests without a live session or a signature can do.
use kakao_relay.Prelude.{
  ℕ, Str, ◌≡◌, refl, ◌⊎◌, inl, inr, Bool, true, false, Option, none, some, List, find_where,
  Bool-cases, is_empty, arith, zero, suc, ltb, length, take, [], ◌∷◌, ap, subst, sym, ◌≢◌,
  str_eq_iff,
}
use kakao_relay.Model.{ℤ, Account, Session}
use kakao_relay.World.{Database, ok, after}
use kakao_relay.Runtime.{Runtime, hash_token, hmac}
use kakao_relay.Repository.Sessions
use kakao_relay.Middleware.Auth.{extract_token, authenticate, with_session}
use kakao_relay.Repository.Query.Cases.{get_context-Ends}
use kakao_relay.Middleware.Signature.{SignatureOutcome, check_signature, check_body}
use kakao_relay.Middleware.Signature
use kakao_relay.Middleware.BodyLimit.{limit_body, new_body_limit, exceeds}
use kakao_relay.Server.Routes.{
  checked, signed_request, Settings, Target, Request, Server, Answer, Handler, with_body_limit,
  with_auth, with_signature, limited_body, authenticated,
}
use kakao_relay.Server.Serve.{route, serve}

-- Nothing that another request could see has changed.
pub record Untouched (before then_state : Server) : Type 0 where
  pub db : then_state.world.db ≡ before.world.db
  pub posted : then_state.world.posted ≡ before.world.posted
  pub published : then_state.world.published ≡ before.world.published
  pub sets : then_state.sets ≡ before.sets

-- A bare status, 401, 413 or 500, and nothing has changed.
unfoldable pub Refuses : Server → Answer × Server → Type 0
Refuses s r =
    (code : ℕ) × (((code ≡ 401) ⊎ (code ≡ 413) ⊎ (code ≡ 500))
      × ((r.0 ≡ Answer.status code) × Untouched s r.1))

-- No token, or one that belongs to no session that waits or is paired.
unfoldable pub NoSession : Runtime → Str → Database → Type 0
NoSession rt token db =
    (is_empty token ≡ true)
    ⊎ (find_where (Sessions.is_live (hash_token rt token)) db.sessions ≡ none)

untouched : (s : Server) → Untouched s s
untouched s = record { db = refl; posted = refl; published = refl; sets = refl }

after-Untouched : (s : Server) → Untouched s (record s { world = after s.world })
after-Untouched s = record { db = refl; posted = refl; published = refl; sets = refl }

module _ (rt : Runtime) (cfg : Settings) (req : Request) where
  no_row-Refuses :
      (h : Session → Option Account → Handler) (o : Option Session) (s : Server)
      → o ≡ none
      → Refuses s (authenticated (with_session (ok o, after s.world)) h s)
  unfolding with_session Refuses
  no_row-Refuses h none s e = (401, (inl refl, (refl, after-Untouched s)))
  no_row-Refuses h (some row) s e = absurd (cc)

  with_auth-Refuses :
      (h : Session → Option Account → Handler) (s : Server)
      → NoSession rt (extract_token req.auth) s.world.db
      → Refuses s (with_auth rt req h s)
  unfolding with_auth authenticate Sessions.find_by_token_hash NoSession
  with_auth-Refuses h s gone = elim (Bool-cases (is_empty (extract_token req.auth))) [
    | inl blank ↦ rw blank (unfold Refuses in (401, (inl refl, (refl, untouched s))))
    | inr named ↦
        rw named
          (elim (get_context-Ends
            (λ v.
              find_where (Sessions.is_live (hash_token rt (extract_token req.auth))) v.db.sessions)
            s.world) [
              | inl (e, failed) ↦ rw failed (
                  unfold with_session Refuses in (500, (inr (inr refl), (refl, after-Untouched s))))
              | inr found ↦ rw found (no_row-Refuses h _ s (ground (arith, named, gone)))
            ])
  ]

  -- A body that is not cut is passed on whole.
  take_all : (n : ℕ) (bs : List ℕ) → ltb n (length bs) ≡ false → take n bs ≡ bs
  take_all zero [] h = refl
  take_all zero (b ∷ bs) h = absurd (ground arith)
  take_all (suc n) [] h = refl
  take_all (suc n) (b ∷ bs) h = ap (λ t. b ∷ t) (take_all n bs (ground (arith, h)))

  checked-Refuses :
      (h : Handler) (s : Server) (o : SignatureOutcome)
      → ((o ≡ Signature.refused 401) ⊎ (o ≡ Signature.refused 500))
      → Refuses s (checked o h s)
  unfolding Refuses
  checked-Refuses h s o (inl e) = rw e (401, (inl refl, (refl, untouched s)))
  checked-Refuses h s o (inr e) = rw e (500, (inr (inr refl), (refl, untouched s)))

  -- With a secret, a body whose HMAC is not the signature is refused before it is parsed.
  forged-refused :
      (body : List ℕ) (cut : Bool)
      → is_empty cfg.kakao_signature_secret ≡ false
      → (cut ≡ false → hmac rt cfg.kakao_signature_secret body ≢ req.signature)
      → (check_signature rt cfg.kakao_signature_secret (signed_request cfg req (body, cut))
          ≡ Signature.refused 401)
        ⊎ (check_signature rt cfg.kakao_signature_secret (signed_request cfg req (body, cut))
            ≡ Signature.refused 500)
  unfolding check_signature check_body
  forged-refused body true secret forged = ground (arith, secret)
  forged-refused body false secret forged = ground (
    arith,
    secret,
    forged refl,
    str_eq_iff (hmac rt cfg.kakao_signature_secret body) req.signature,
  )

  -- What the caller of a guarded route lacks.
  unfoldable pub Barred : Target → Server → Type 0
  Barred Target.reply s = NoSession rt (extract_token req.auth) s.world.db
  Barred (Target.events signals) s = NoSession rt (extract_token req.auth) s.world.db
  Barred Target.webhook s =
      (is_empty cfg.kakao_signature_secret ≡ false)
      × (hmac rt cfg.kakao_signature_secret req.body ≢ req.signature)
  Barred _ s = ⊥

  route-Refuses :
      (t : Target) (body : List ℕ) (cut : Bool) (s : Server)
      → (cut ≡ false → body ≡ req.body)
      → Barred t s
      → Refuses s (route rt cfg req (body, cut) t s)
  unfolding route Barred with_signature
  route-Refuses Target.reply body cut s same barred = with_auth-Refuses _ s barred
  route-Refuses (Target.events signals) body cut s same barred = with_auth-Refuses _ s barred
  route-Refuses Target.webhook body cut s same (secret, forged) = checked-Refuses _ s _ (
      forged-refused body cut secret (λ whole.
        subst (λ b. hmac rt cfg.kakao_signature_secret b ≢ req.signature) (sym (same whole))
          forged))
  route-Refuses _ body cut s same barred = absurd (ground arith)

  limited-Refuses :
      (limit : ℕ) (s : Server)
      → Barred req.target s
      → Refuses s (
          limited_body
            (limit_body limit req.content_length req.body)
            (λ body. route rt cfg req body req.target)
            s)
  unfolding limit_body
  limited-Refuses limit s barred = elim (Bool-cases (exceeds req.content_length limit)) [
    | inl large ↦ rw large (unfold Refuses in (413, (inr (inl refl), (refl, untouched s))))
    | inr small ↦ rw small (
        route-Refuses req.target (take limit req.body) (ltb limit (length req.body)) s
          (take_all limit req.body) barred)
  ]

  -- A reply or an event stream without a token of a session that waits or is paired, and, with a
  -- signature secret, a webhook whose body is not signed with it, is answered with a bare 401, 413
  -- or 500, whichever calls fail: no row and no rate limit set changes, nothing is posted, and
  -- nothing is published.
  pub serve-Refuses : (s : Server) → Barred req.target s → Refuses s (serve rt cfg req s)
  unfolding serve with_body_limit
  serve-Refuses s barred = limited-Refuses (new_body_limit (ℤ.pos 0)) s barred
