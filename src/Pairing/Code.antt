-- ===== src/Pairing/Code.antt =====
-- internal/domain/device_pairing.go, PairingCode, and internal/pairing/code.go, its generator.
-- A Go string is a list of code points; a code's bytes are its code points, which are ASCII.
mod Parsing
mod Generator
mod Samples
use alexandryn.Base.{
  ℕ, zero, suc, ◌+◌, ◌-◌, ◌*◌, ◌/◌, ◌%◌, ◌^◌, Bool, false, not, ◌&&◌, ◌||◌, List, [], ◌∷◌, ◌++◌,
  map, length, take, drop, filter, all, any, ltb, leb, ◌==◌, if◌then◌else◌, Text, lit, text_eq,
  byte_len, trim_space, Result, ok, Error, invalid_input, invalid_pairing_code, ◌>>=◌, ◌>>◌,
  reject_if,
}

abbrev pub crockford_alphabet : Text
crockford_alphabet = lit "0123456789ABCDEFGHJKMNPQRSTVWXYZ"

abbrev pub pairing_code_len : ℕ
pairing_code_len = 8

pub record PairingCode : Type 0 where
  pub b : Text

-- strings.ContainsRune(CrockfordAlphabet, r)
pub is_crockford : ℕ → Bool
unfolding any
is_crockford r = any (λ c. c == r) crockford_alphabet

abbrev pub code_error : Error
code_error = record { category = invalid_input; sentinel = invalid_pairing_code }

-- The upper case of a code point beyond ASCII is Unicode's table, `upper`.
module _ (upper : ℕ → ℕ) where
  -- unicode.ToUpper
  pub to_upper : ℕ → ℕ
  to_upper r = if ltb r 0x80 then (if leb b'a' r && leb r b'z' then r - 32 else r) else upper r

  -- strings.ToUpper(strings.ReplaceAll(strings.TrimSpace(untrusted), "-", ""))
  pub normalize : Text → Text
  unfolding to_upper filter
  normalize untrusted = map to_upper (filter (λ r. not (r == b'-')) (trim_space untrusted))

  pub new_pairing_code : Text → Result PairingCode
  new_pairing_code untrusted =
      let n = normalize untrusted in
      do
        reject_if (not (byte_len n == pairing_code_len)) code_error
        reject_if (not (all is_crockford n)) code_error
        ok (record { b = n })

-- A code that is not eight bytes long, as the zero value, equals nothing.
unfoldable pub equal : PairingCode → PairingCode → Bool
equal c other =
    if not (length c.b == pairing_code_len) || not (length other.b == pairing_code_len)
    then false
    else text_eq c.b other.b

pub display : PairingCode → Text
display c = if length c.b == pairing_code_len then take 4 c.b ++ (b'-' ∷ drop 4 c.b) else []

-- The five random bytes, `b[0]` to `b[4]`.
pub record Entropy : Type 0 where
  pub b0 : ℕ
  pub b1 : ℕ
  pub b2 : ℕ
  pub b3 : ℕ
  pub b4 : ℕ

abbrev get_or {ℓ} : {A : Type ℓ} → List A → ℕ → A → A
get_or [] i d = d
get_or (x ∷ xs) zero d = x
get_or (x ∷ xs) (suc i) d = get_or xs i d

-- CrockfordAlphabet[k]; k is below 32 wherever it is called.
pub crockford_char : ℕ → ℕ
crockford_char k = get_or crockford_alphabet k 0

-- The loop from i = 7 down to 0: `v & 0x1f` is v % 32, and `v >>= 5` is v / 32.
pub crockford_digits : ℕ → ℕ → Text → Text
crockford_digits zero v out = out
crockford_digits (suc i) v out = crockford_digits i (v / 32) (crockford_char (v % 32) ∷ out)

-- The shifted bytes have no bit in common, so `|` is their sum.
abbrev pub packed : Entropy → ℕ
packed e = e.b0 * 2 ^ 32 + e.b1 * 2 ^ 24 + e.b2 * 2 ^ 16 + e.b3 * 2 ^ 8 + e.b4

pub encode_crockford40 : Entropy → Text
unfolding crockford_digits
encode_crockford40 e = crockford_digits 8 (packed e) []
