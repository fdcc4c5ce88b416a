-- ===== src/Signing/Envelope.antt =====
-- The token format: what is split is what was joined, and what a MAC opens is the payload.
use alexandryn.Base.{
  ◌≡◌, refl, inl, inr, Bool, true, false, not, Option, none, some, List, [], ◌∷◌, ◌++◌, arith, ◌==◌,
  if◌then◌else◌, Option-cases, &&-true, all, Text, lit, text_eq, text_eq_refl,
}
use alexandryn.Signing.{
  Primitives, IsStandard, split_dots, signing_input, hs256_sign, verified_parts,
  hs256_verified_claims,
}

split_dotless : (a : Text) → all (λ c. not (c == 46)) a ≡ true → split_dots a ≡ a ∷ []
unfolding split_dots all
split_dotless [] h = refl
split_dotless (c ∷ a) h =
    let (plain, rest) = &&-true (not (c == 46)) (all (λ x. not (x == 46)) a) h in
    rw (split_dotless a rest) (ground arith)

split_dot :
    (a b : Text) → all (λ c. not (c == 46)) a ≡ true → split_dots (a ++ (46 ∷ b)) ≡ a ∷ split_dots b
unfolding split_dots all
split_dot [] b h = refl
split_dot (c ∷ a) b h =
    let (plain, rest) = &&-true (not (c == 46)) (all (λ x. not (x == 46)) a) h in
    rw (split_dot a b rest) (ground arith)

module _ (p : Primitives) (std : IsStandard p) where
  append_dot : (a b c : Text) → (a ++ (46 ∷ b)) ++ (46 ∷ c) ≡ a ++ (46 ∷ (b ++ (46 ∷ c)))
  append_dot [] b c = refl
  append_dot (x ∷ a) b c = rw (append_dot a b c)

  -- Three encoded parts are split again.
  split_three :
      (a b c : Text)
      → split_dots (signing_input p (signing_input p (p.encode64 a) (p.encode64 b)) (p.encode64 c))
        ≡ p.encode64 a ∷ p.encode64 b ∷ p.encode64 c ∷ []
  split_three a b c = rw (append_dot (p.encode64 a) (p.encode64 b) (p.encode64 c)) (
      rw (split_dot (p.encode64 a) (p.encode64 b ++ (46 ∷ p.encode64 c)) (std.encode64_dotless a)) (
        rw (split_dot (p.encode64 b) (p.encode64 c) (std.encode64_dotless b))
          (rw (split_dotless (p.encode64 c) (std.encode64_dotless c)))))

  pub hs256_verified_claims-hs256_sign :
      (secret json : Text) → hs256_verified_claims p secret (hs256_sign p secret json) ≡ some json
  unfolding hs256_sign hs256_verified_claims
  hs256_verified_claims-hs256_sign secret json =
      let header = p.marshal_header (record { algorithm = lit "HS256"; typ = lit "JWT" }) in
      let input = signing_input p (p.encode64 header) (p.encode64 json) in
      rw (split_three header json (p.hmac_sha256 secret input)) (
        unfold verified_parts in
        rw
          (
            verified_parts,
            std.decode64-encode64 header,
            std.header_back (record { algorithm = lit "HS256"; typ = lit "JWT" }),
            std.decode64-encode64 (p.hmac_sha256 secret input),
            text_eq_refl (p.hmac_sha256 secret input),
            std.decode64-encode64 json,
          )
          (unfold text_eq in refl))

-- The middle part of a token, decoded.
abbrev pub payload_of : Primitives → List Text → Option Text
payload_of p (header ∷ payload ∷ signature ∷ []) = p.decode64 payload
payload_of p parts = none

pub if_some {ℓ} :
    {A : Type ℓ} (b : Bool) (o : Option A) {x : A}
    → (if b then none else o) ≡ some x
    → (b ≡ false) × (o ≡ some x)
if_some true o h = cc h
if_some false o h = (refl, h)

-- What a MAC opens: the middle part, whatever the key; the last part is the MAC of the first two.
pub verified_parts-payload :
    (p : Primitives) (secret : Text) (parts : List Text) (json : Text)
    → verified_parts p secret parts ≡ some json
    → payload_of p parts ≡ some json
unfolding verified_parts
verified_parts-payload p secret (header ∷ payload ∷ signature ∷ []) json h =
    elim (Option-cases (p.decode64 header)) [
      | inl e ↦ cc (rw (e, verified_parts) at h)
      | inr (raw, e) ↦ elim (Option-cases (p.unmarshal_header raw)) [
        | inl f ↦ cc (rw (e, f, verified_parts) at h)
        | inr (hd, f) ↦
            let (alg, g) =
              if_some (not (text_eq hd.algorithm (lit "HS256"))) _
                (rw (e, f, verified_parts) at h) in
            elim (Option-cases (p.decode64 signature)) [
              | inl k ↦ cc (rw k at g)
              | inr (sig, k) ↦
                  (if_some
                    (not (text_eq sig (p.hmac_sha256 secret (signing_input p header payload))))
                    (p.decode64 payload) (rw k at g)).1
            ]
      ]
    ]
verified_parts-payload p secret parts json h = cc h
