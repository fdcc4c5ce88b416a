-- ===== src/Signing.antt =====
-- internal/auth/hs256.go and jwt.go: the compact token format and the access and MFA-ticket tokens.
-- HMAC-SHA256, base64url, encoding/json and HKDF are parameters; byte strings and JSON texts are
-- lists of numbers. An error of these functions is a plain Go error: `none`. Times are Unix seconds.
pub mod Envelope
pub mod Grants
pub mod Purpose
pub mod Soundness
pub mod Samples
use alexandryn.Base.{
  ℕ, ◌+◌, ◌-◌, ◌≡◌, Bool, true, not, ◌&&◌, Option, none, some, List, [], ◌∷◌, ◌++◌, ◌==◌,
  if◌then◌else◌, all, ℤ, leb_ℤ, Text, lit, text_eq, is_empty,
}

pub record Header : Type 0 where
  pub algorithm : Text
  pub typ : Text

pub record Claims : Type 0 where
  pub subject : Text
  pub username : Text
  pub role : Text
  pub libraries : List Text
  pub jti : Text
  pub issued_at : ℤ
  pub expires_at : ℤ
  pub issuer : Text
  pub typ : Text

-- enrolment_grant.go
pub record EnrolmentClaims : Type 0 where
  pub typ : Text
  pub session_id : Text
  pub jti : Text
  pub issued_at : ℤ
  pub expires_at : ℤ
  pub issuer : Text

-- reader_content_grant.go
pub record ReaderContentClaims : Type 0 where
  pub typ : Text
  pub subject : Text
  pub library_id : Text
  pub edition_id : Text
  pub issued_at : ℤ
  pub expires_at : ℤ
  pub issuer : Text

-- The libraries that the code calls. json.Marshal does not fail on structs of strings, numbers and
-- lists of strings.
pub record Primitives : Type 0 where
  pub hmac_sha256 : Text → Text → Text
  pub encode64 : Text → Text
  pub decode64 : Text → Option Text
  pub hkdf_key : Text → Text → Option Text
  pub marshal_header : Header → Text
  pub unmarshal_header : Text → Option Header
  pub marshal_claims : Claims → Text
  pub unmarshal_claims : Text → Option Claims
  pub marshal_enrolment : EnrolmentClaims → Text
  pub unmarshal_enrolment : Text → Option EnrolmentClaims
  pub marshal_reader : ReaderContentClaims → Text
  pub unmarshal_reader : Text → Option ReaderContentClaims

-- What the code relies on: decoding undoes encoding, base64url writes no dot, and the three structs
-- read the member `typ` of an object alike.
pub record IsStandard (p : Primitives) : Type 0 where
  pub decode64-encode64 : (s : Text) → p.decode64 (p.encode64 s) ≡ some s
  pub encode64_dotless : (s : Text) → all (λ c. not (c == 46)) (p.encode64 s) ≡ true
  pub header_back : (h : Header) → p.unmarshal_header (p.marshal_header h) ≡ some h
  pub claims_back : (c : Claims) → p.unmarshal_claims (p.marshal_claims c) ≡ some c
  pub enrolment_back :
      (c : EnrolmentClaims) → p.unmarshal_enrolment (p.marshal_enrolment c) ≡ some c
  pub reader_back : (c : ReaderContentClaims) → p.unmarshal_reader (p.marshal_reader c) ≡ some c
  pub claims_enrolment :
      (t : Text) (c : Claims) (d : EnrolmentClaims)
      → p.unmarshal_claims t ≡ some c
      → p.unmarshal_enrolment t ≡ some d
      → c.typ ≡ d.typ
  pub claims_reader :
      (t : Text) (c : Claims) (d : ReaderContentClaims)
      → p.unmarshal_claims t ≡ some c
      → p.unmarshal_reader t ≡ some d
      → c.typ ≡ d.typ
  pub enrolment_reader :
      (t : Text) (c : EnrolmentClaims) (d : ReaderContentClaims)
      → p.unmarshal_enrolment t ≡ some c
      → p.unmarshal_reader t ≡ some d
      → c.typ ≡ d.typ

-- strings.Split(s, "."): never empty.
abbrev prepend : ℕ → List Text → List Text
prepend c [] = []
prepend c (part ∷ parts) = (c ∷ part) ∷ parts

unfoldable pub split_dots : Text → List Text
split_dots [] = [] ∷ []
split_dots (c ∷ s) = let rest = split_dots s in if c == 46 then [] ∷ rest else prepend c rest

abbrev pub token_type_access : Text
token_type_access = lit "access"

abbrev pub token_type_mfa_ticket : Text
token_type_mfa_ticket = lit "mfa_ticket"

pub record JwtSigner : Type 0 where
  pub secret : Text
  pub mfa_ticket_secret : Text
  pub issuer : Text

-- The issuer check of every Verify: an empty configured issuer accepts all.
abbrev pub wrong_issuer : Text → Text → Bool
wrong_issuer expected issuer = not (is_empty expected) && not (text_eq issuer expected)

module _ (p : Primitives) where
  abbrev pub signing_input : Text → Text → Text
  signing_input header payload = header ++ (46 ∷ payload)

  -- hs256Sign, of the marshalled claims.
  unfoldable pub hs256_sign : Text → Text → Text
  hs256_sign secret claims_json =
      let header =
        p.encode64 (p.marshal_header (record { algorithm = lit "HS256"; typ = lit "JWT" })) in
      let input = signing_input header (p.encode64 claims_json) in
      signing_input input (p.encode64 (p.hmac_sha256 secret input))

  unfoldable pub verified_parts : Text → List Text → Option Text
  verified_parts secret (header ∷ payload ∷ signature ∷ []) = elim (p.decode64 header) [
    | none ↦ none
    | some header_json ↦ elim (p.unmarshal_header header_json) [
      | none ↦ none
      | some h ↦
          if not (text_eq h.algorithm (lit "HS256")) then none else elim (p.decode64 signature) [
            | none ↦ none
            | some sig ↦
                if not (text_eq sig (p.hmac_sha256 secret (signing_input header payload)))
                then none
                else p.decode64 payload
          ]
    ]
  ]
  verified_parts secret parts = none

  unfoldable pub hs256_verified_claims : Text → Text → Option Text
  unfolding verified_parts split_dots
  hs256_verified_claims secret token = verified_parts secret (split_dots token)

  abbrev pub new_jwt_signer : Text → Text → JwtSigner
  new_jwt_signer secret issuer = record {
    secret = secret;
    mfa_ticket_secret = elim (p.hkdf_key secret (lit "mfa-ticket-signing-v1")) [
      | none ↦ secret
      | some key ↦ key
    ];
    issuer = issuer;
  }

  abbrev pub with_issuer : JwtSigner → Claims → Claims
  with_issuer s c = if is_empty c.issuer then record c { issuer = s.issuer } else c

  unfoldable pub sign : JwtSigner → Claims → Text
  sign s c = hs256_sign s.secret (p.marshal_claims (with_issuer s c))

  unfoldable pub verify : JwtSigner → Text → ℤ → Option Claims
  verify s token now = elim (hs256_verified_claims s.secret token) [
    | none ↦ none
    | some claims_json ↦ elim (p.unmarshal_claims claims_json) [
      | none ↦ none
      | some c ↦
          if leb_ℤ c.expires_at now
          then none
          else if wrong_issuer s.issuer c.issuer
          then none
          else some c
    ]
  ]

  unfoldable pub verify_access_token : JwtSigner → Text → ℤ → Option Claims
  unfolding verify
  verify_access_token s token now = elim (verify s token now) [
    | none ↦ none
    | some c ↦ if not (text_eq c.typ token_type_access) then none else some c
  ]

  -- `new_jti` is the outcome of newJTI and `issued_at` that of time.Now.
  sign_mfa_ticket : JwtSigner → Text → ℤ → Option Text → ℤ → Option Text
  sign_mfa_ticket s user_id expires_at new_jti issued_at = elim new_jti [
    | none ↦ none
    | some jti ↦ some (
        hs256_sign s.mfa_ticket_secret (
          p.marshal_claims (record {
            subject = user_id;
            username = [];
            role = [];
            libraries = [];
            jti = jti;
            issued_at = issued_at;
            expires_at = expires_at;
            issuer = s.issuer;
            typ = token_type_mfa_ticket;
          })))
  ]

  unfoldable pub verify_mfa_ticket : JwtSigner → Text → ℤ → Option (Text × Text)
  verify_mfa_ticket s token now = elim (hs256_verified_claims s.mfa_ticket_secret token) [
    | none ↦ none
    | some claims_json ↦ elim (p.unmarshal_claims claims_json) [
      | none ↦ none
      | some c ↦
          if leb_ℤ c.expires_at now
          then none
          else if wrong_issuer s.issuer c.issuer
          then none
          else if not (text_eq c.typ token_type_mfa_ticket)
          then none
          else some (c.subject, c.jti)
    ]
  ]
