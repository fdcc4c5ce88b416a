-- ===== src/Signing/Soundness.antt =====
-- What an accepted access token is, and that a signed one is accepted.
use alexandryn.Base.{
  ◌≡◌, refl, ◌⊎◌, false, some, [], ◌∷◌, arith, ℤ, leb_ℤ, ◌<ℤ◌, Text, lit, text_eq_iff, text_eq_refl,
}
use alexandryn.Signing.{
  Header, Claims, Primitives, IsStandard, split_dots, token_type_access, JwtSigner, wrong_issuer,
  signing_input, with_issuer, sign, verify, verify_access_token,
}
use alexandryn.Signing.Envelope.{hs256_verified_claims-hs256_sign}

-- Three parts whose header names HS256, whose last is the MAC of the first two under the key, and whose
-- middle one is the text.
pub record IsSigned (p : Primitives) (secret token json : Text) : Type 0 where
  pub header : Text
  pub payload : Text
  pub signature : Text
  pub raw : Text
  pub head : Header
  pub parts : split_dots token ≡ header ∷ payload ∷ signature ∷ []
  pub header_raw : p.decode64 header ≡ some raw
  pub header_read : p.unmarshal_header raw ≡ some head
  pub algorithm : head.algorithm ≡ lit "HS256"
  pub mac : p.decode64 signature ≡ some (p.hmac_sha256 secret (signing_input p header payload))
  pub body : p.decode64 payload ≡ some json

module _ (p : Primitives) where
  -- Claims of type access, signed with the signer's issuer or with none, are returned by its verifier
  -- at every time before they expire, the issuer filled in.
  pub verify_access_token-sign :
      (s : JwtSigner) (c : Claims) (now : ℤ)
      → IsStandard p
      → c.typ ≡ token_type_access
      → now <ℤ c.expires_at
      → (c.issuer ≡ []) ⊎ (c.issuer ≡ s.issuer)
      → verify_access_token p s (sign p s c) now ≡ some (record c { issuer = s.issuer })
  unfolding verify verify_access_token sign
  verify_access_token-sign s c now std t fresh known =
      let d : Claims = record c { issuer = s.issuer } in
      let filled : with_issuer p s c ≡ d = fill c.issuer known in
      let opened = hs256_verified_claims-hs256_sign p std s.secret (p.marshal_claims d) in
      let early : leb_ℤ d.expires_at now ≡ false = ground arith in
      let typed = (text_eq_iff c.typ token_type_access).1 t in
      rw filled (
        rw
          (
            opened,
            verify_access_token,
            verify,
            std.claims_back d,
            early,
            right_issuer s.issuer,
            typed,
          )
          refl)
    where
      fill :
          (issuer : Text)
          → (issuer ≡ []) ⊎ (issuer ≡ s.issuer)
          → with_issuer p s (record c { issuer = issuer }) ≡ record c { issuer = s.issuer }
      fill [] k = refl
      fill (x ∷ xs) k = ground arith

      right_issuer : (issuer : Text) → wrong_issuer issuer issuer ≡ false
      right_issuer issuer = rw (text_eq_refl issuer) (ground arith)
