-- ===== src/Catalogue/Texts.antt =====
-- internal/domain/validate.go, with the constructor of internal/domain/subject.go.
-- The pattern of a language tag is written as a scan; an ISBN's bytes are its code points, which
-- makes no difference, since every byte but a digit is refused.
mod Isbn
mod Samples
use alexandryn.Base.{
  ℕ, ◌+◌, ◌-◌, ◌*◌, ◌%◌, Bool, true, false, not, ◌&&◌, ◌||◌, [], ◌∷◌, ltb, leb, ◌==◌, if◌then◌else◌,
  length, filter, any, Text, byte_len, is_control, is_blank, invalid_input, error, Result, ok,
  ◌>>=◌, ◌>>◌, reject_if,
}

pub validate_bounded_text : Text → ℕ → Result (Unit {0})
validate_bounded_text s max_len = do
  reject_if (is_blank s) (error invalid_input)
  reject_if (ltb max_len (length s)) (error invalid_input)
  reject_if (any is_control s) (error invalid_input)
  ok tt

abbrev pub is_digit : ℕ → Bool
is_digit c = leb b'0' c && leb c b'9'

abbrev is_letter : ℕ → Bool
is_letter c = (leb b'a' c && leb c b'z') || (leb b'A' c && leb c b'Z')

-- ^[a-zA-Z]{2,8}(-[a-zA-Z0-9]{1,8})*$ from within a subtag, of which `n` characters were read.
pub tag_scan : Bool → ℕ → Text → Bool
tag_scan primary n [] = leb (if primary then 2 else 1) n && leb n 8
tag_scan primary n (c ∷ s) =
    let next_subtag = tag_scan false 0 s in
    let same_subtag = tag_scan primary (n + 1) s in
    if c == b'-'
    then (leb (if primary then 2 else 1) n && leb n 8) && next_subtag
    else (is_letter c || (not primary && is_digit c)) && same_subtag

pub validate_language_tag : Text → Result (Unit {0})
validate_language_tag s = do reject_if (not (tag_scan true 0 s)) (error invalid_input); ok tt

-- The loop of isValidISBN10 from index `i`; a break with `return false` is false.
pub isbn10_loop : ℕ → ℕ → Text → Bool
isbn10_loop i sum [] = sum % 11 == 0
isbn10_loop i sum (c ∷ s) =
    let as_digit = isbn10_loop (i + 1) (sum + (c - b'0') * (10 - i)) s in
    let as_ten = isbn10_loop (i + 1) (sum + 10 * (10 - i)) s in
    if is_digit c then as_digit else if c == b'X' && i == 9 then as_ten else false

pub is_valid_isbn10 : Text → Bool
is_valid_isbn10 s = isbn10_loop 0 0 s

-- The loop of isValidISBN13 from index `i`.
pub isbn13_loop : ℕ → ℕ → Text → Bool
isbn13_loop i sum [] = sum % 10 == 0
isbn13_loop i sum (c ∷ s) =
    let rest = isbn13_loop (i + 1) (sum + (if i % 2 == 0 then c - b'0' else (c - b'0') * 3)) s in
    if is_digit c then rest else false

pub is_valid_isbn13 : Text → Bool
is_valid_isbn13 s = isbn13_loop 0 0 s

pub validate_isbn : Text → Result (Unit {0})
validate_isbn s =
    let cleaned = filter (λ c. not (c == b'-')) s in
    let valid =
      (byte_len cleaned == 10 && is_valid_isbn10 cleaned)
      || (byte_len cleaned == 13 && is_valid_isbn13 cleaned) in
    do reject_if (not valid) (error invalid_input); ok tt

pub new_subject : Text → Result Text
new_subject value = do validate_bounded_text value 100; ok value
