-- ===== src/Signing/Grants.antt =====
-- internal/auth/enrolment_grant.go and reader_content_grant.go: the two grants, each with a key of its
-- own. `now` is a time after 1970 in Unix seconds.
use alexandryn.Base.{
  ℕ, ◌+◌, not, ◌||◌, Option, none, some, if◌then◌else◌, pos, leb_ℤ, Text, lit, text_eq, is_empty,
}
use alexandryn.Signing.{
  EnrolmentClaims, ReaderContentClaims, Primitives, wrong_issuer, hs256_sign, hs256_verified_claims,
}

abbrev pub token_type_enrolment : Text
token_type_enrolment = lit "enrol"

abbrev pub token_type_reader_content : Text
token_type_reader_content = lit "reader_content"

-- Ten and fifteen minutes, in seconds.
abbrev enrolment_grant_ttl : ℕ
enrolment_grant_ttl = 600

abbrev reader_content_grant_ttl : ℕ
reader_content_grant_ttl = 900

-- EnrolmentGrantSigner without its id generator, and ReaderContentGrantSigner.
pub record GrantSigner : Type 0 where
  pub secret : Text
  pub issuer : Text

module _ (p : Primitives) where
  -- `jti` is what the id generator returns.
  unfoldable pub sign_enrolment : GrantSigner → Text → Text → ℕ → Option Text
  sign_enrolment s session_id jti now =
      if is_empty session_id
      then none
      else some (
          hs256_sign p s.secret (
            p.marshal_enrolment (record {
              typ = token_type_enrolment;
              session_id = session_id;
              jti = jti;
              issued_at = pos now;
              expires_at = pos (now + enrolment_grant_ttl);
              issuer = s.issuer;
            })))

  unfoldable pub verify_enrolment : GrantSigner → Text → ℕ → Option EnrolmentClaims
  verify_enrolment s token now = elim (hs256_verified_claims p s.secret token) [
    | none ↦ none
    | some claims_json ↦ elim (p.unmarshal_enrolment claims_json) [
      | none ↦ none
      | some c ↦
          if not (text_eq c.typ token_type_enrolment)
          then none
          else if leb_ℤ c.expires_at (pos now)
          then none
          else if wrong_issuer s.issuer c.issuer
          then none
          else if is_empty c.session_id || is_empty c.jti
          then none
          else some c
    ]
  ]

  sign_reader : GrantSigner → Text → Text → Text → ℕ → Option (Text × ℕ)
  sign_reader s user_id library_id edition_id now =
      if is_empty user_id || (is_empty library_id || is_empty edition_id)
      then none
      else some (
        hs256_sign p s.secret (
            p.marshal_reader (record {
              typ = token_type_reader_content;
              subject = user_id;
              library_id = library_id;
              edition_id = edition_id;
              issued_at = pos now;
              expires_at = pos (now + reader_content_grant_ttl);
              issuer = s.issuer;
            })),
        now + reader_content_grant_ttl,
      )

  unfoldable pub verify_reader : GrantSigner → Text → ℕ → Option ReaderContentClaims
  verify_reader s token now = elim (hs256_verified_claims p s.secret token) [
    | none ↦ none
    | some claims_json ↦ elim (p.unmarshal_reader claims_json) [
      | none ↦ none
      | some c ↦
          if not (text_eq c.typ token_type_reader_content)
          then none
          else if leb_ℤ c.expires_at (pos now)
          then none
          else if wrong_issuer s.issuer c.issuer
          then none
          else if is_empty c.subject || (is_empty c.library_id || is_empty c.edition_id)
          then none
          else some c
    ]
  ]
