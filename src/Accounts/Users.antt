-- ===== src/Accounts/Users.antt =====
-- internal/domain/auth.go: roles, users and credentials. The two regular expressions
-- are written as tests on code points; `lower` is Unicode's lower case of a code point beyond ASCII.
mod Validity
mod Samples
use alexandryn.Base.{
  ℕ, zero, suc, ◌+◌, ◌-◌, ◌*◌, ◌/◌, ◌%◌, ◌^◌, Bool, true, false, not, ◌&&◌, ◌||◌, Option, none,
  some, [], ◌∷◌, map, ltb, leb, ◌==◌, if◌then◌else◌, length, all, any, Text, lit, text_eq, byte_len,
  trim_space, is_empty, is_blank, invalid_input, error, Result, ok, err, ◌>>=◌, ◌>>◌, reject_if,
}

pub data Role : Type 0 where
  admin reader : Role
  other_role : Text → Role

parse_role : Text → Result Role
parse_role s =
    if text_eq s (lit "admin")
    then ok admin
    else if text_eq s (lit "reader")
    then ok reader
    else err (error invalid_input)

unfoldable pub role_valid : Role → Bool
role_valid (other_role t) = false
role_valid r = true

unfoldable pub is_alnum : ℕ → Bool
is_alnum c =
    (leb b'a' c && leb c b'z') || ((leb b'A' c && leb c b'Z') || (leb b'0' c && leb c b'9'))

-- ^[a-zA-Z0-9_-]{3,50}$
pub username_matches : Text → Bool
unfolding is_alnum all
username_matches s =
    all (λ c. is_alnum c || (c == b'_' || c == b'-')) s && (leb 3 (length s) && leb (length s) 50)

-- The characters of the local part besides letters and digits.
abbrev local_specials : Text
local_specials = lit ".!#$%&'*+/=?^_`{|}~-"

unfoldable pub is_local_char : ℕ → Bool
unfolding is_alnum any
is_local_char c = is_alnum c || any (λ x. x == c) local_specials

-- The part before the first `sep` and, if there is one, the part behind it.
unfoldable pub cut : ℕ → Text → Text × Option Text
cut sep [] = ([], none)
cut sep (c ∷ s) = let rest = cut sep s in if c == sep then ([], some s) else (c ∷ rest.0, rest.1)

abbrev starts_alnum : Text → Bool
starts_alnum [] = false
starts_alnum (c ∷ s) = is_alnum c

unfoldable pub ends_alnum : Text → Bool
unfolding is_alnum
ends_alnum [] = false
ends_alnum (c ∷ []) = is_alnum c
ends_alnum (c ∷ d ∷ s) = ends_alnum (d ∷ s)

-- [a-zA-Z0-9](?:[a-zA-Z0-9-]{0,61}[a-zA-Z0-9])?
unfoldable pub label_matches : Text → Bool
unfolding is_alnum ends_alnum all
label_matches s =
    all (λ c. is_alnum c || c == b'-') s && (leb (length s) 63 && (starts_alnum s && ends_alnum s))

-- Labels joined by dots; `first` says that another label must follow.
unfoldable pub labels_match : ℕ → Bool → Text → Bool
unfolding cut label_matches
labels_match zero first s = false
labels_match (suc fuel) first s =
    let parts = cut b'.' s in
    label_matches parts.0
    && (elim parts.1 [ none ↦ not first | some rest ↦ labels_match fuel false rest ])

-- local@label(.label)+ ; neither part holds a further `@`. A label takes a code point at least, so
-- the length of the text is enough fuel.
unfoldable pub email_matches : Text → Bool
unfolding cut is_local_char labels_match all
email_matches s =
    let parts = cut b'@' s in
    not (is_empty parts.0)
    && (all is_local_char parts.0 && (elim parts.1 [
      | none ↦ false
      | some domain ↦ labels_match (suc (length s)) true domain
    ]))

pub record User : Type 0 where
  pub id : Text
  pub username : Text
  pub email : Text
  pub role : Role
  pub created_at : ℕ
  pub updated_at : ℕ

-- unicode.ToLower
unfoldable pub to_lower : (ℕ → ℕ) → ℕ → ℕ
to_lower lower r = if ltb r 0x80 then (if leb b'A' r && leb r b'Z' then r + 32 else r) else lower r

-- strings.TrimSpace(strings.ToLower(email))
unfoldable pub normal_email : (ℕ → ℕ) → Text → Text
unfolding to_lower
normal_email lower email = trim_space (map (to_lower lower) email)

-- len(email) > 255 || !validEmailRegex.MatchString(email)
unfoldable pub email_bad : Text → Bool
unfolding email_matches
email_bad email = ltb 255 (byte_len email) || not (email_matches email)

pub new_user : (ℕ → ℕ) → Text → Text → Text → Role → ℕ → ℕ → Result User
new_user lower id untrimmed address role created_at updated_at =
    let username = trim_space untrimmed in
    let email = normal_email lower address in
    do
      reject_if (is_blank id) (error invalid_input)
      reject_if (not (username_matches username)) (error invalid_input)
      reject_if (email_bad email) (error invalid_input)
      reject_if (not (role_valid role)) (error invalid_input)
      ok (record {
        id = id;
        username = username;
        email = email;
        role = role;
        created_at = created_at;
        updated_at = updated_at;
      })

pub set_role : User → Role → ℕ → User × Result (Unit {0})
set_role u r now =
    if not (role_valid r)
    then (u, err (error invalid_input))
    else (record u { role = r; updated_at = now }, ok tt)

pub record UserCredentials : Type 0 where
  pub user_id : Text
  pub password_hash : Text
  pub updated_at : ℕ

new_user_credentials : Text → Text → ℕ → Result UserCredentials
new_user_credentials user_id password_hash updated_at = do
  reject_if (is_blank user_id) (error invalid_input)
  reject_if (is_blank password_hash) (error invalid_input)
  ok (record { user_id = user_id; password_hash = password_hash; updated_at = updated_at })
