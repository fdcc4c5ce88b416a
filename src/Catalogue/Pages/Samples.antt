-- ===== src/Catalogue/Pages/Samples.antt =====
-- Cursors over stand-ins for the packages.
use alexandryn.Base.{ℕ, ◌+◌, ◌-◌, ◌≡◌, refl, ap, none, some, [], ◌∷◌, arith, drop, all, lit, ok}
use alexandryn.Catalogue.Pages.{
  Primitives, IsStandard, encode_added_at_cursor, decode_added_at_cursor, encode_title_cursor,
  decode_title_cursor, decode_cursor-encode_cursor,
}

abbrev plain : Primitives ℕ
plain = record {
  encode64 = λ s. 42 ∷ s;
  decode64 = λ s. some (drop 1 s);
  format = λ t. (t + 1) ∷ [];
  parse = λ s. elim s [ [] ↦ none | c ∷ rest ↦ some (c - 1) ];
}

plain-IsStandard : IsStandard ℕ plain
plain-IsStandard = record {
  decode64-encode64 = λ s. refl;
  encode64_some = λ c s. refl;
  format_some = λ t. refl;
  format_plain = λ t. unfold all in ground arith;
  parse-format = λ t. let same : t + 1 - 1 ≡ t = omega arith in ap some same;
}

decode_cursor-encode_cursor_run :
    (decode_added_at_cursor plain (encode_added_at_cursor plain 1700000000 (lit "w1"))
      ≡ ok (1700000000, lit "w1"))
    × (decode_title_cursor plain (encode_title_cursor plain (lit "Emma") (lit "w1"))
        ≡ ok (lit "Emma", lit "w1"))
decode_cursor-encode_cursor_run =
    decode_cursor-encode_cursor plain 1700000000 (lit "Emma") (lit "w1") plain-IsStandard refl
      (unfold all in refl) (unfold all in refl)
