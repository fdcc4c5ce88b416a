-- ===== src/Catalogue/Texts/Samples.antt =====
-- Validated texts.
use alexandryn.Base.{
  ℕ, ◌≡◌, refl, filter, any, lit, byte_len, is_control, trim_space, is_blank, invalid_input, error,
  ok, err,
}
use alexandryn.Catalogue.Texts.{
  validate_language_tag, tag_scan, validate_isbn, is_valid_isbn10, isbn10_loop, is_valid_isbn13,
  isbn13_loop, new_subject, validate_bounded_text,
}
use alexandryn.Catalogue.Texts.Isbn.{is_valid_isbn13-one_digit}

real_isbn : validate_isbn (lit "978-0-306-40615-7") ≡ ok tt
unfolding validate_isbn is_valid_isbn10 isbn10_loop is_valid_isbn13 isbn13_loop filter byte_len
real_isbn = refl

old_isbn : validate_isbn (lit "0-8044-2957-X") ≡ ok tt
unfolding validate_isbn is_valid_isbn10 isbn10_loop is_valid_isbn13 isbn13_loop filter byte_len
old_isbn = refl

tags :
    (validate_language_tag (lit "pt-BR") ≡ ok tt)
    × (validate_language_tag (lit "p-BR") ≡ err (error invalid_input))
unfolding validate_language_tag tag_scan
tags = (refl, refl)

no_tabs : new_subject (lit "a\tb") ≡ err (error invalid_input)
unfolding new_subject validate_bounded_text is_blank trim_space any is_control
no_tabs = refl

is_valid_isbn13-one_digit_example : ◌≡◌ {A = ℕ} b'0' b'0'
is_valid_isbn13-one_digit_example =
    is_valid_isbn13-one_digit (lit "97803064") (lit "6157") b'0' b'0'
      (unfold is_valid_isbn13 isbn13_loop in refl) (unfold is_valid_isbn13 isbn13_loop in refl)
