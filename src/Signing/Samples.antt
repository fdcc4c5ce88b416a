-- ===== src/Signing/Samples.antt =====
-- Tokens over concrete stand-ins for the libraries: fields written one after the other, and numbers
-- moved above the code of the dot.
use alexandryn.Base.{
  ℕ, zero, suc, ◌+◌, ◌-◌, ◌≤◌, ◌≡◌, refl, ap, ◌∙◌, inl, true, not, none, some, List, [], ◌∷◌, ◌++◌,
  arith, ◌==◌, length, drop, filter, all, ℤ, pos, negsuc, Text, lit,
}
use alexandryn.Signing.{
  Header, Claims, EnrolmentClaims, ReaderContentClaims, Primitives, IsStandard, JwtSigner,
  new_jwt_signer, sign, verify_access_token, verify_mfa_ticket,
}
use alexandryn.Signing.Grants.{GrantSigner, sign_enrolment, verify_enrolment, verify_reader}
use alexandryn.Signing.Purpose.{accepts, verify_one_purpose}
use alexandryn.Signing.Soundness.{verify_access_token-sign}

abbrev shift_up : Text → Text
shift_up [] = []
shift_up (c ∷ s) = (c + 47) ∷ shift_up s

abbrev shift_down : Text → Text
shift_down [] = []
shift_down (c ∷ s) = (c - 47) ∷ shift_down s

shift_back : (s : Text) → shift_down (shift_up s) ≡ s
shift_back [] = refl
shift_back (c ∷ s) = let same : c + 47 - 47 ≡ c = omega arith in rw (shift_back s, same)

shift_up-dotless : (s : Text) → all (λ c. not (c == 46)) (shift_up s) ≡ true
unfolding all
shift_up-dotless [] = refl
shift_up-dotless (c ∷ s) = ground (arith, shift_up-dotless s)

-- Fields, each closed by a 0.
abbrev put : Text → Text → Text
put [] rest = 0 ∷ rest
put (c ∷ s) rest = suc c ∷ put s rest

abbrev write : List Text → Text
write [] = []
write (f ∷ fs) = put f (write fs)

abbrev push : ℕ → List Text → List Text
push c [] = []
push c (f ∷ fs) = (c ∷ f) ∷ fs

abbrev read : Text → List Text
read [] = []
read (zero ∷ s) = [] ∷ read s
read (suc c ∷ s) = push c (read s)

read-put : (f rest : Text) → read (put f rest) ≡ f ∷ read rest
read-put [] rest = refl
read-put (c ∷ f) rest = rw (read-put f rest)

read-write : (fs : List Text) → read (write fs) ≡ fs
read-write [] = refl
read-write (f ∷ fs) = rw (read-put f (write fs), read-write fs)

abbrev number : ℤ → Text
number (pos n) = 0 ∷ n ∷ []
number (negsuc n) = 1 ∷ n ∷ []

abbrev of_number : Text → ℤ
of_number (zero ∷ n ∷ s) = pos n
of_number (suc k ∷ n ∷ s) = negsuc n
of_number s = pos 0

of_number-number : (z : ℤ) → of_number (number z) ≡ z
of_number-number (pos n) = refl
of_number-number (negsuc n) = refl

abbrev nth : ℕ → List Text → Text
nth n [] = []
nth zero (f ∷ fs) = f
nth (suc n) (f ∷ fs) = nth n fs

abbrev claims_fields : Claims → List Text
claims_fields c =
    c.typ
    ∷ c.issuer
    ∷ number c.issued_at
    ∷ number c.expires_at
    ∷ c.subject
    ∷ c.username
    ∷ c.role
    ∷ c.jti
    ∷ c.libraries

abbrev fields_claims : List Text → Claims
fields_claims fs = record {
  subject = nth 4 fs;
  username = nth 5 fs;
  role = nth 6 fs;
  libraries = drop 8 fs;
  jti = nth 7 fs;
  issued_at = of_number (nth 2 fs);
  expires_at = of_number (nth 3 fs);
  issuer = nth 1 fs;
  typ = nth 0 fs;
}

abbrev enrolment_fields : EnrolmentClaims → List Text
enrolment_fields c =
    c.typ ∷ c.issuer ∷ number c.issued_at ∷ number c.expires_at ∷ c.session_id ∷ c.jti ∷ []

abbrev fields_enrolment : List Text → EnrolmentClaims
fields_enrolment fs = record {
  typ = nth 0 fs;
  session_id = nth 4 fs;
  jti = nth 5 fs;
  issued_at = of_number (nth 2 fs);
  expires_at = of_number (nth 3 fs);
  issuer = nth 1 fs;
}

abbrev reader_fields : ReaderContentClaims → List Text
reader_fields c =
    c.typ
    ∷ c.issuer
    ∷ number c.issued_at
    ∷ number c.expires_at
    ∷ c.subject
    ∷ c.library_id
    ∷ c.edition_id
    ∷ []

abbrev fields_reader : List Text → ReaderContentClaims
fields_reader fs = record {
  typ = nth 0 fs;
  subject = nth 4 fs;
  library_id = nth 5 fs;
  edition_id = nth 6 fs;
  issued_at = of_number (nth 2 fs);
  expires_at = of_number (nth 3 fs);
  issuer = nth 1 fs;
}

abbrev header_fields : Header → List Text
header_fields h = h.algorithm ∷ h.typ ∷ []

abbrev fields_header : List Text → Header
fields_header fs = record { algorithm = nth 0 fs; typ = nth 1 fs }

abbrev pub plain : Primitives
plain = record {
  hmac_sha256 = λ k message. k ++ message;
  encode64 = shift_up;
  decode64 = λ s. some (shift_down s);
  hkdf_key = λ secret label. some (label ++ secret);
  marshal_header = λ h. write (header_fields h);
  unmarshal_header = λ t. some (fields_header (read t));
  marshal_claims = λ c. write (claims_fields c);
  unmarshal_claims = λ t. some (fields_claims (read t));
  marshal_enrolment = λ c. write (enrolment_fields c);
  unmarshal_enrolment = λ t. some (fields_enrolment (read t));
  marshal_reader = λ c. write (reader_fields c);
  unmarshal_reader = λ t. some (fields_reader (read t));
}

plain-IsStandard : IsStandard plain
plain-IsStandard = record {
  decode64-encode64 = λ s. ap some (shift_back s);
  encode64_dotless = shift_up-dotless;
  header_back = λ h. ap (λ fs. some (fields_header fs)) (read-write (header_fields h));
  claims_back = λ c.
      ap (λ fs. some (fields_claims fs)) (read-write (claims_fields c))
      ∙ rw (of_number-number c.issued_at, of_number-number c.expires_at) refl;
  enrolment_back = λ c.
      ap (λ fs. some (fields_enrolment fs)) (read-write (enrolment_fields c))
      ∙ rw (of_number-number c.issued_at, of_number-number c.expires_at) refl;
  reader_back = λ c.
      ap (λ fs. some (fields_reader fs)) (read-write (reader_fields c))
      ∙ rw (of_number-number c.issued_at, of_number-number c.expires_at) refl;
  claims_enrolment = λ t c d u v. ground arith;
  claims_reader = λ t c d u v. ground arith;
  enrolment_reader = λ t c d u v. ground arith;
}

abbrev key : Text
key = 7 ∷ 8 ∷ 9 ∷ []

abbrev pub server : JwtSigner
server = new_jwt_signer plain key (lit "home")

abbrev pub reader_login : Claims
reader_login = record {
  subject = lit "u1";
  username = lit "ada";
  role = lit "member";
  libraries = lit "l1" ∷ [];
  jti = lit "x";
  issued_at = pos 100;
  expires_at = pos 1000;
  issuer = [];
  typ = lit "access";
}

verify_access_token-sign_example :
    verify_access_token plain server (sign plain server reader_login) (pos 500)
    ≡ some (record reader_login { issuer = lit "home" })
verify_access_token-sign_example =
    verify_access_token-sign plain server reader_login (pos 500) plain-IsStandard refl (omega arith)
      (inl refl)

-- An enrolment grant signed with the key of the access tokens.
abbrev same_key : GrantSigner
same_key = record { secret = key; issuer = lit "home" }

abbrev grant : Text
grant = elim (sign_enrolment plain same_key (lit "s1") (lit "j") 100) [ none ↦ [] | some t ↦ t ]

verify_one_purpose_example :
    length (
      filter
        (λ x. x)
        (accepts (verify_access_token plain server grant (pos 200))
          ∷ accepts (verify_mfa_ticket plain server grant (pos 200))
          ∷ accepts (verify_enrolment plain same_key grant 200)
          ∷ accepts (verify_reader plain same_key grant 200)
          ∷ []))
    ≤ 1
verify_one_purpose_example =
    verify_one_purpose plain plain-IsStandard server same_key same_key grant 200
