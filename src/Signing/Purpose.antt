-- ===== src/Signing/Purpose.antt =====
-- The four verifiers against each other.
use alexandryn.Base.{
  ℕ, ◌≤◌, ◌≡◌, refl, sym, ap, ◌∙◌, inl, inr, Bool, true, false, not, ◌&&◌, Option, none, some, [],
  ◌∷◌, arith, if◌then◌else◌, Option-cases, length, filter, ℤ, pos, leb_ℤ, Text, text_eq,
  text_eq_iff,
}
use alexandryn.Signing.{
  Claims, EnrolmentClaims, ReaderContentClaims, Primitives, IsStandard, split_dots,
  token_type_access, token_type_mfa_ticket, JwtSigner, wrong_issuer, hs256_verified_claims, verify,
  verify_access_token, verify_mfa_ticket,
}
use alexandryn.Signing.Grants.{
  token_type_enrolment, token_type_reader_content, GrantSigner, verify_enrolment, verify_reader,
}
use alexandryn.Signing.Envelope.{payload_of, if_some, verified_parts-payload}

abbrev pub accepts {ℓ} : {A : Type ℓ} → Option A → Bool
accepts none = false
accepts (some x) = true

-- The payload of a token, read as a struct whose `typ` is the one given.
abbrev Reads : (C : Type 0) → (Text → Option C) → (C → Text) → Option Text → Text → Type 0
Reads C unmarshal typ payload t =
    (json : Text) × (c : C) × (payload ≡ some json) × (unmarshal json ≡ some c) × (typ c ≡ t)

module _ (p : Primitives) where
  abbrev payload : Text → Option Text
  payload token = payload_of p (split_dots token)

  opened :
      (secret token json : Text)
      → hs256_verified_claims p secret token ≡ some json
      → payload token ≡ some json
  unfolding hs256_verified_claims
  opened secret token json h = verified_parts-payload p secret (split_dots token) json h

  typed : (t u : Text) → not (text_eq t u) ≡ false → t ≡ u
  typed t u h = (text_eq_iff t u).0 (ground arith)

  pub verify_cases :
      (s : JwtSigner) (token : Text) (now : ℤ) (c : Claims)
      → verify p s token now ≡ some c
      → (json : Text) × (hs256_verified_claims p s.secret token ≡ some json)
        × (p.unmarshal_claims json ≡ some c)
        × (leb_ℤ c.expires_at now ≡ false)
        × (wrong_issuer s.issuer c.issuer ≡ false)
  unfolding verify
  verify_cases s token now c h = elim (Option-cases (hs256_verified_claims p s.secret token)) [
    | inl e ↦ cc (rw (e, verify) at h)
    | inr (json, e) ↦ elim (Option-cases (p.unmarshal_claims json)) [
      | inl f ↦ cc (rw (e, f, verify) at h)
      | inr (d, f) ↦
          let (fresh, g) = if_some (leb_ℤ d.expires_at now) _ (rw (e, f, verify) at h) in
          let (known, k) = if_some (wrong_issuer s.issuer d.issuer) (some d) g in
          let same : d ≡ c = ground arith in
          (
            json,
            e,
            f ∙ k,
            ap (λ (x : Claims). leb_ℤ x.expires_at now) (sym same) ∙ fresh,
            ap (λ (x : Claims). wrong_issuer s.issuer x.issuer) (sym same) ∙ known,
          )
    ]
  ]

  pub verify_access_token_cases :
      (s : JwtSigner) (token : Text) (now : ℤ) (c : Claims)
      → verify_access_token p s token now ≡ some c
      → (verify p s token now ≡ some c) × (c.typ ≡ token_type_access)
  unfolding verify_access_token
  verify_access_token_cases s token now c h = elim (Option-cases (verify p s token now)) [
    | inl e ↦ cc (rw (e, verify_access_token) at h)
    | inr (d, e) ↦
        let (same_type, g) =
          if_some (not (text_eq d.typ token_type_access)) (some d)
            (rw (e, verify_access_token) at h) in
        let same : d ≡ c = ground arith in
        (e ∙ g, ap (λ (x : Claims). x.typ) (sym same) ∙ typed d.typ token_type_access same_type)
  ]

  access-Reads :
      (s : JwtSigner) (token : Text) (now : ℤ)
      → accepts (verify_access_token p s token now) ≡ true
      → Reads Claims p.unmarshal_claims (λ c. c.typ) (payload token) token_type_access
  access-Reads s token now h = elim (Option-cases (verify_access_token p s token now)) [
    | inl e ↦ cc (rw e at h)
    | inr (c, e) ↦
        let (v, t) = verify_access_token_cases s token now c e in
        let (json, o, u, _, _) = verify_cases s token now c v in
        (json, c, opened s.secret token json o, u, t)
  ]

  ticket-Reads :
      (s : JwtSigner) (token : Text) (now : ℤ)
      → accepts (verify_mfa_ticket p s token now) ≡ true
      → Reads Claims p.unmarshal_claims (λ c. c.typ) (payload token) token_type_mfa_ticket
  unfolding verify_mfa_ticket
  ticket-Reads s token now h =
      elim (Option-cases (hs256_verified_claims p s.mfa_ticket_secret token)) [
        | inl e ↦ cc (rw (e, verify_mfa_ticket) at h)
        | inr (json, e) ↦ elim (Option-cases (p.unmarshal_claims json)) [
          | inl f ↦ cc (rw (e, f, verify_mfa_ticket) at h)
          | inr (c, f) ↦ (
            json,
            c,
            opened s.mfa_ticket_secret token json e,
            f,
            typed c.typ token_type_mfa_ticket (
                unaccepted (leb_ℤ c.expires_at now) (wrong_issuer s.issuer c.issuer) _ _
                  (rw (e, f, verify_mfa_ticket) at h)),
          )
        ]
      ]
    where
      unaccepted :
          {A : Type 0} (a b d : Bool) (x : A)
          → accepts (if a then none else if b then none else if d then none else some x) ≡ true
          → d ≡ false
      unaccepted a b d x h = ground arith

  grant_typed :
      {A : Type 0} (a b d e : Bool) (x : A)
      → accepts
          (if a then none else if b then none else if d then none else if e then none else some x)
        ≡ true
      → a ≡ false
  grant_typed a b d e x h = ground arith

  enrolment-Reads :
      (s : GrantSigner) (token : Text) (now : ℕ)
      → accepts (verify_enrolment p s token now) ≡ true
      → Reads EnrolmentClaims p.unmarshal_enrolment
          (λ c. c.typ)
          (payload token)
          token_type_enrolment
  unfolding verify_enrolment
  enrolment-Reads s token now h = elim (Option-cases (hs256_verified_claims p s.secret token)) [
    | inl e ↦ cc (rw (e, verify_enrolment) at h)
    | inr (json, e) ↦ elim (Option-cases (p.unmarshal_enrolment json)) [
      | inl f ↦ cc (rw (e, f, verify_enrolment) at h)
      | inr (c, f) ↦ (
        json,
        c,
        opened s.secret token json e,
        f,
        typed c.typ token_type_enrolment (
            grant_typed (not (text_eq c.typ token_type_enrolment)) (leb_ℤ c.expires_at (pos now))
              (wrong_issuer s.issuer c.issuer) _ _ (rw (e, f, verify_enrolment) at h)),
      )
    ]
  ]

  reader-Reads :
      (s : GrantSigner) (token : Text) (now : ℕ)
      → accepts (verify_reader p s token now) ≡ true
      → Reads ReaderContentClaims p.unmarshal_reader
          (λ c. c.typ)
          (payload token)
          token_type_reader_content
  unfolding verify_reader
  reader-Reads s token now h = elim (Option-cases (hs256_verified_claims p s.secret token)) [
    | inl e ↦ cc (rw (e, verify_reader) at h)
    | inr (json, e) ↦ elim (Option-cases (p.unmarshal_reader json)) [
      | inl f ↦ cc (rw (e, f, verify_reader) at h)
      | inr (c, f) ↦ (
        json,
        c,
        opened s.secret token json e,
        f,
        typed c.typ token_type_reader_content (
            grant_typed (not (text_eq c.typ token_type_reader_content))
              (leb_ℤ c.expires_at (pos now)) (wrong_issuer s.issuer c.issuer) _ _
              (rw (e, f, verify_reader) at h)),
      )
    ]
  ]

-- Two readings of one payload that agree on `typ` are of one type.
clash :
    {C D : Type 0} (read_c : Text → Option C) (read_d : Text → Option D) (typ_c : C → Text)
    (typ_d : D → Text) (o : Option Text) (t u : Text)
    → ((j : Text) (c : C) (d : D) → read_c j ≡ some c → read_d j ≡ some d → typ_c c ≡ typ_d d)
    → text_eq t u ≡ false
    → (a b : Bool) → (a ≡ true → Reads C read_c typ_c o t)
    → (b ≡ true → Reads D read_d typ_d o u)
    → (a && b) ≡ false
clash read_c read_d typ_c typ_d o t u agree differ false b f g = refl
clash read_c read_d typ_c typ_d o t u agree differ true false f g = refl
clash read_c read_d typ_c typ_d o t u agree differ true true f g =
    let (j, c, e, r, ct) = f refl in
    let (k, d, e2, r2, dt) = g refl in
    let same : j ≡ k = ground arith in
    let one = agree j c d r (ap read_d same ∙ r2) in
    let both : t ≡ u = sym ct ∙ one ∙ dt in let twice = (text_eq_iff t u).1 both in cc

at_most_one :
    (a b c d : Bool)
    → (a && b) ≡ false
    → (a && c) ≡ false
    → (a && d) ≡ false
    → (b && c) ≡ false
    → (b && d) ≡ false
    → (c && d) ≡ false
    → length (filter (λ x. x) (a ∷ b ∷ c ∷ d ∷ [])) ≤ 1
unfolding filter
at_most_one a b c d ab ac ad bc bd cd = ground arith

-- No token whatever is accepted by more than one of the verifiers of access tokens, MFA tickets,
-- enrolment grants and reader-content grants, whichever keys and issuers they are built with, equal
-- ones included. Of JSON it is used that the three structs read the member `typ` alike.
pub verify_one_purpose :
    (p : Primitives)
    → IsStandard p
    → (s : JwtSigner) (enrolment reader : GrantSigner) (token : Text) (now : ℕ)
    → length (
        filter
          (λ x. x)
          (accepts (verify_access_token p s token (pos now))
            ∷ accepts (verify_mfa_ticket p s token (pos now))
            ∷ accepts (verify_enrolment p enrolment token now)
            ∷ accepts (verify_reader p reader token now)
            ∷ []))
      ≤ 1
verify_one_purpose p std s enrolment reader token now =
    let o = payload p token in
    let a = access-Reads p s token (pos now) in
    let t = ticket-Reads p s token (pos now) in
    let e = enrolment-Reads p enrolment token now in
    let r = reader-Reads p reader token now in
    unfold text_eq in
    at_most_one _ _ _ _
      (clash p.unmarshal_claims p.unmarshal_claims (λ c. c.typ) (λ c. c.typ) o token_type_access
        token_type_mfa_ticket (λ j c d f g. ground arith) refl _ _ a t)
      (clash p.unmarshal_claims p.unmarshal_enrolment (λ c. c.typ) (λ c. c.typ) o token_type_access
        token_type_enrolment std.claims_enrolment refl _ _ a e)
      (clash p.unmarshal_claims p.unmarshal_reader (λ c. c.typ) (λ c. c.typ) o token_type_access
        token_type_reader_content std.claims_reader refl _ _ a r)
      (clash p.unmarshal_claims p.unmarshal_enrolment (λ c. c.typ) (λ c. c.typ) o
        token_type_mfa_ticket token_type_enrolment std.claims_enrolment refl _ _ t e)
      (clash p.unmarshal_claims p.unmarshal_reader (λ c. c.typ) (λ c. c.typ) o token_type_mfa_ticket
        token_type_reader_content std.claims_reader refl _ _ t r)
      (clash p.unmarshal_enrolment p.unmarshal_reader (λ c. c.typ) (λ c. c.typ) o
        token_type_enrolment token_type_reader_content std.enrolment_reader refl _ _ e r)
