-- ===== src/Sources/Samples.antt =====
-- Continuation tokens over stand-ins for the packages.
use alexandryn.Base.{
  ℕ, zero, suc, ◌≤◌, ◌≡◌, refl, ap, ◌↔◌, ◌⊎◌, inr, true, Option, some, [], ◌∷◌, ◌++◌, arith,
  if◌then◌else◌, length, Text, lit, text_eq, invalid_input, error, ok, err,
}
use alexandryn.Sources.{
  Url, OriginParts, same_origin, same_origin_iff, parse_absolute_http, effective,
}
use alexandryn.Sources.Cursors.{
  Cursor, kind_local_folder, kind_opds, Primitives, IsStandard, encode, decode, position,
  for_opds_position, decode-encode, decode-accepted, for_opds_position-same_origin,
}

abbrev thirty_two : Text
thirty_two = lit "0123456789abcdef0123456789abcdef"

-- Fields, each closed by a 0.
abbrev close : Text → Text → Text
close [] rest = 0 ∷ rest
close (c ∷ s) rest = suc c ∷ close s rest

abbrev push : ℕ → Text × Text → Text × Text
push c (f, rest) = (c ∷ f, rest)

abbrev first_field : Text → Text × Text
first_field [] = ([], [])
first_field (zero ∷ s) = ([], s)
first_field (suc c ∷ s) = push c (first_field s)

first_field-close : (f rest : Text) → first_field (close f rest) ≡ (f, rest)
first_field-close [] rest = refl
first_field-close (c ∷ f) rest = ap (push c) (first_field-close f rest)

abbrev put : Cursor → Text
put c = close c.source_id (close c.kind (close c.position []))

abbrev get : Text → Cursor
get s =
    let (a, s1) = first_field s in
    let (b, s2) = first_field s1 in
    record { source_id = a; kind = b; position = (first_field s2).0 }

abbrev plain : Primitives
plain = record {
  hmac_sha256 = λ key message. thirty_two;
  encode64 = λ s. s;
  decode64 = λ s. some s;
  marshal = put;
  unmarshal = λ s. some (get s);
}

plain-IsStandard : IsStandard plain
plain-IsStandard = record {
  hmac_length = λ key message. refl;
  decode64-encode64 = λ s. refl;
  marshal_some = λ c. not_empty c.source_id (close c.kind (close c.position []));
}
  where
    not_empty : (s rest : Text) → 1 ≤ length (close s rest)
    not_empty [] rest = omega arith
    not_empty (c ∷ s) rest = omega arith

abbrev page : Cursor
page = record { source_id = lit "s1"; kind = lit "opds"; position = lit "http://h/2" }

abbrev key : Text
key = 1 ∷ 2 ∷ 3 ∷ []

get-put : (c : Cursor) → get (put c) ≡ c
get-put c =
    rw
      (
        first_field-close c.source_id (close c.kind (close c.position [])),
        first_field-close c.kind (close c.position []),
        first_field-close c.position [],
      )
      refl

decode-encode_example :
    decode plain key (encode plain key page) (lit "s2")
    ≡ (if text_eq (lit "s1") (lit "s2") then ok page else err (error invalid_input))
decode-encode_example =
    decode-encode plain key page (lit "s2") plain-IsStandard (ap some (get-put page)) (inr refl)

page-decoded : decode plain key (encode plain key page) (lit "s1") ≡ ok page
unfolding decode encode text_eq
page-decoded = refl

decode-accepted_example :
    (payload : Text) × (plain.decode64 (encode plain key page) ≡ some (thirty_two ++ payload))
    × (plain.unmarshal payload ≡ some page)
    × (lit "s1" ≡ lit "s1")
    × ((lit "opds" ≡ kind_local_folder) ⊎ (lit "opds" ≡ kind_opds))
decode-accepted_example =
    decode-accepted plain key (encode plain key page) (lit "s1") page page-decoded

-- Every address is on one host.
abbrev parse : Text → Option Url
parse s = some (record { scheme = lit "http"; hostname = lit "h"; port = [] })

abbrev unfolded : Text → Text
unfolded s = s

same_origin_iff_run : (same_origin parse unfolded (lit "http://h") (lit "http://h:80") ≡ true) ↔ (
    (c o : OriginParts) × (parse_absolute_http parse unfolded (lit "http://h") ≡ some c)
    × (parse_absolute_http parse unfolded (lit "http://h:80") ≡ some o)
    × (effective parse unfolded c ≡ effective parse unfolded o))
same_origin_iff_run = same_origin_iff parse unfolded (lit "http://h") (lit "http://h:80")

page-given : for_opds_position parse unfolded page (lit "http://h") ≡ position (lit "http://h/2")
unfolding for_opds_position same_origin text_eq
page-given = refl

for_opds_position-same_origin_example :
    (lit "opds" ≡ kind_opds)
    × (lit "http://h/2" ≡ lit "http://h/2")
    × ((lit "http://h/2" ≡ [])
        ⊎ ((a b : OriginParts) × (parse_absolute_http parse unfolded (lit "http://h") ≡ some a)
            × (parse_absolute_http parse unfolded (lit "http://h/2") ≡ some b)
            × (effective parse unfolded a ≡ effective parse unfolded b)))
for_opds_position-same_origin_example =
    for_opds_position-same_origin parse unfolded page (lit "http://h") (lit "http://h/2") page-given
