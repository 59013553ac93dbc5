-- ===== src/Util/Validation/Uuids.antt =====
-- internal/util/validation.go: which texts `IsValidUUID` accepts.
use kakao_relay.Prelude.{
  ℕ, suc, zero, Str, ◌≡◌, refl, ap, ◌↔◌, true, false, Option, none, some, [], ◌∷◌, ◌++◌, arith,
  Bool-cases, is_empty, inl, inr,
}
use kakao_relay.Util.Validation.{is_hex, hex_run, dash, run_at, at_end, uuid_regex, is_valid_uuid}

-- `g` has `n` characters, all of them hex digits in lower case.
abbrev pub IsGroup : ℕ → Str → Type 0
IsGroup zero [] = Unit {0}
IsGroup zero (_ ∷ _) = ⊥
IsGroup (suc n) [] = ⊥
IsGroup (suc n) (c ∷ g) = (is_hex c ≡ true) × IsGroup n g

hex_run-group : (n : ℕ) (g rest : Str) → IsGroup n g → hex_run n (g ++ rest) ≡ some rest
unfolding hex_run
hex_run-group zero [] rest h = refl
hex_run-group zero (c ∷ g) rest h = elim h [ ]
hex_run-group (suc n) [] rest h = elim h [ ]
hex_run-group (suc n) (c ∷ g) rest (p, h) = rw (p, hex_run-group n g rest h) refl

-- A successful run has split a group off.
hex_run-split :
    (n : ℕ) (s rest : Str) → hex_run n s ≡ some rest → (g : Str) × (IsGroup n g × (s ≡ g ++ rest))
unfolding hex_run
hex_run-split zero s rest e = ([], (tt, (ground (arith, e))))
hex_run-split (suc n) [] rest e = absurd (ground arith)
hex_run-split (suc n) (c ∷ s) rest e =
    let step : (is_hex c ≡ true) × (hex_run n s ≡ some rest) = ground (arith, e) in
    let (g, (h, q)) = hex_run-split n s rest step.1 in (c ∷ g, ((step.0, h), ap (λ t. c ∷ t) q))

run_at-split :
    (n : ℕ) (o : Option Str) (rest : Str)
    → run_at n o ≡ some rest
    → (g : Str) × (IsGroup n g × (o ≡ some (g ++ rest)))
run_at-split n none rest e = absurd (ground arith)
run_at-split n (some s) rest e = let (g, (h, q)) = hex_run-split n s rest e in (g, (h, ap some q))

dash-split : (o : Option Str) (rest : Str) → dash o ≡ some rest → o ≡ some (b'-' ∷ rest)
dash-split none rest e = absurd (ground arith)
dash-split (some []) rest e = absurd (ground arith)
dash-split (some (c ∷ s)) rest e = ground (arith, e)

at_end-split : (o : Option Str) → at_end o ≡ true → o ≡ some []
at_end-split none e = absurd (ground arith)
at_end-split (some []) e = refl
at_end-split (some (c ∷ s)) e = absurd (ground arith)

-- Five groups of hex digits, of 8, 4, 4, 4 and 12, with dashes between them.
pub record IsUuid (s : Str) : Type 0 where
  pub a : Str
  pub b : Str
  pub c : Str
  pub d : Str
  pub e : Str
  pub groups : IsGroup 8 a × (IsGroup 4 b × (IsGroup 4 c × (IsGroup 4 d × IsGroup 12 e)))
  pub shape : s ≡ a ++ (b'-' ∷ (b ++ (b'-' ∷ (c ++ (b'-' ∷ (d ++ (b'-' ∷ (e ++ []))))))))

uuid_regex-IsUuid : (s : Str) → uuid_regex s ≡ true → IsUuid s
unfolding uuid_regex
uuid_regex-IsUuid s h =
    let (e, (he, qe)) = run_at-split 12 _ [] (at_end-split _ h) in
    let (d, (hd, qd)) = run_at-split 4 _ _ (dash-split _ _ qe) in
    let (c, (hc, qc)) = run_at-split 4 _ _ (dash-split _ _ qd) in
    let (b, (hb, qb)) = run_at-split 4 _ _ (dash-split _ _ qc) in
    let (a, (ha, qa)) = hex_run-split 8 s _ (dash-split _ _ qb) in
    record { a = a; b = b; c = c; d = d; e = e; groups = (ha, (hb, (hc, (hd, he)))); shape = qa }

IsUuid-regex : (s : Str) → IsUuid s → uuid_regex s ≡ true
unfolding uuid_regex
IsUuid-regex s u =
    let (ha, (hb, (hc, (hd, he)))) = u.groups in
    rw
      (
        u.shape,
        hex_run-group 8 u.a _ ha,
        hex_run-group 4 u.b _ hb,
        hex_run-group 4 u.c _ hc,
        hex_run-group 4 u.d _ hd,
        hex_run-group 12 u.e _ he,
      )
      refl

IsUuid-nonempty : (s : Str) → is_empty s ≡ true → uuid_regex s ≡ false
unfolding uuid_regex hex_run
IsUuid-nonempty [] h = refl
IsUuid-nonempty (c ∷ s) h = absurd (ground arith)

-- `IsValidUUID` accepts exactly the five groups of 8, 4, 4, 4 and 12 hex digits in lower case with
-- dashes between them.
pub is_valid_uuid_iff : (s : Str) → (is_valid_uuid s ≡ true) ↔ IsUuid s
unfolding is_valid_uuid
is_valid_uuid_iff s = elim (Bool-cases (is_empty s)) [
  | inl p ↦ (
    (λ h. uuid_regex-IsUuid s (ground (arith, p, h))),
    (λ u. let r = IsUuid-regex s u in let q = IsUuid-nonempty s p in absurd (ground (arith, r, q))),
  )
  | inr p ↦ ((λ h. uuid_regex-IsUuid s (ground (arith, p, h))), (λ u. rw p (IsUuid-regex s u)))
]
