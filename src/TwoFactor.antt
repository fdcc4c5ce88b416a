-- ===== src/TwoFactor.antt =====
-- internal/auth/totp.go: one-time codes and recovery codes. HMAC-SHA1, the two base32 decoders,
-- SHA-256 in hexadecimal and strings.ToUpper are parameters; a byte string is a list of numbers.
-- Times are Unix seconds, negative ones included; a panic on an index is a value of its own.
pub mod Codes
pub mod Window
pub mod Recovery
mod Samples
use alexandryn.Base.{
  ℕ, zero, suc, ◌+◌, ◌-◌, ◌*◌, ◌/◌, ◌%◌, ◌^◌, Bool, true, false, not, Option, none, some, List, [],
  ◌∷◌, map, ◌==◌, if◌then◌else◌, length, ℤ, pos, negsuc, pos_part, neg_part, sub_ℕ, Text, lit,
  text_eq, byte_len, trim_space,
}

pub record Primitives : Type 0 where
  pub hmac_sha1 : Text → Text → Text
  pub decode32 : Text → Option Text
  pub decode32_padded : Text → Option Text
  pub sha256_hex : Text → Text
  pub to_upper : Text → Text

-- `h[i]`, or a panic.
abbrev pub get_elem? : Text → ℕ → Option ℕ
get_elem? [] i = none
get_elem? (b ∷ bs) zero = some b
get_elem? (b ∷ bs) (suc i) = get_elem? bs i

-- binary.BigEndian.PutUint64
abbrev pub put_uint64 : ℕ → Text
put_uint64 n =
    (n / 2 ^ 56) % 256
    ∷ (n / 2 ^ 48) % 256
    ∷ (n / 2 ^ 40) % 256
    ∷ (n / 2 ^ 32) % 256
    ∷ (n / 2 ^ 24) % 256
    ∷ (n / 2 ^ 16) % 256
    ∷ (n / 2 ^ 8) % 256
    ∷ n % 256
    ∷ []

-- `fmt.Sprintf("%06d", n)` for n below a million.
abbrev pub six_digits : ℕ → Text
six_digits n =
    (48 + n / 100000 % 10)
    ∷ (48 + n / 10000 % 10)
    ∷ (48 + n / 1000 % 10)
    ∷ (48 + n / 100 % 10)
    ∷ (48 + n / 10 % 10)
    ∷ (48 + n % 10)
    ∷ []

-- `uint64(x)` of an int64.
abbrev pub uint64_of : ℤ → ℕ
uint64_of (pos n) = n % 2 ^ 64
uint64_of (negsuc n) = (2 ^ 64 - 1 - n) % 2 ^ 64

-- t.Add of a whole number of seconds, `offset` times the step of thirty.
abbrev pub shifted : ℤ → ℤ → ℤ
shifted t offset = sub_ℕ (pos_part t + 30 * pos_part offset) (neg_part t + 30 * neg_part offset)

pub data Generated : Type 0 where
  panicked undecodable : Generated
  code : Text → Generated

pub data Verdict : Type 0 where
  panics fails : Verdict
  answers : Bool → Verdict

abbrev pub digits : ℕ
digits = 6

-- The four bytes at the offset that the last one names.
unfoldable pub truncate : Text → Option ℕ
truncate h = elim (get_elem? h (length h - 1)) [
  | none ↦ none
  | some last ↦
      let offset = last % 16 in
      elim (get_elem? h offset) [
        | none ↦ none
        | some b0 ↦ elim (get_elem? h (offset + 1)) [
          | none ↦ none
          | some b1 ↦ elim (get_elem? h (offset + 2)) [
            | none ↦ none
            | some b2 ↦ elim (get_elem? h (offset + 3)) [
              | none ↦ none
              | some b3 ↦ some (b0 % 128 * 2 ^ 24 + b1 % 256 * 2 ^ 16 + b2 % 256 * 2 ^ 8 + b3 % 256)
            ]
          ]
        ]
      ]
]

-- The loop of VerifyRecoveryCode, from an index on.
unfoldable pub verify_from : ℕ → Text → List Text → ℤ
verify_from i hash_hex [] = negsuc 0
verify_from i hash_hex (stored ∷ hashes) =
    let later = verify_from (i + 1) hash_hex hashes in
    if text_eq hash_hex stored then pos i else later

module _ (p : Primitives) where
  unfoldable pub generate_hotp : Text → ℕ → Option Text
  unfolding truncate
  generate_hotp secret counter = elim (truncate (p.hmac_sha1 secret (put_uint64 counter))) [
    | none ↦ none
    | some bin_code ↦ some (six_digits (bin_code % 1000000))
  ]

  unfoldable pub decode_secret : Text → Option Text
  decode_secret secret_base32 =
      let text = p.to_upper (trim_space secret_base32) in
      elim (p.decode32 text) [ some bytes ↦ some bytes | none ↦ p.decode32_padded text ]

  unfoldable pub generate_code : Text → ℤ → Generated
  unfolding generate_hotp decode_secret
  generate_code secret_base32 t = elim (decode_secret secret_base32) [
    | none ↦ undecodable
    | some secret ↦ elim (generate_hotp secret (uint64_of t / 30)) [
      | none ↦ panicked
      | some otp ↦ code otp
    ]
  ]

  -- The loop of ValidateCode, on what is left of its offsets.
  unfoldable pub validate_at : Text → Text → ℤ → List ℤ → Verdict
  unfolding generate_code
  validate_at secret_base32 given t [] = answers false
  validate_at secret_base32 given t (offset ∷ offsets) =
      let later = validate_at secret_base32 given t offsets in
      elim (generate_code secret_base32 (shifted t offset)) [
        | panicked ↦ panics
        | undecodable ↦ fails
        | code expected ↦ if text_eq given expected then answers true else later
      ]

  unfoldable pub validate_code : Text → Text → ℤ → Verdict
  unfolding validate_at
  validate_code secret_base32 given t =
      if not (byte_len (trim_space given) == digits)
      then answers false
      else validate_at secret_base32 (trim_space given) t (pos 0 ∷ negsuc 0 ∷ pos 1 ∷ [])

  unfoldable pub verify_recovery_code : Text → List Text → ℤ
  unfolding verify_from
  verify_recovery_code raw_code stored_hashes =
      verify_from 0 (p.sha256_hex (trim_space (p.to_upper raw_code))) stored_hashes

abbrev pub charset : Text
charset = lit "23456789ABCDEFGHJKLMNPQRSTUVWXYZ"

abbrev pub symbol : ℕ → ℕ
symbol b = elim (get_elem? charset (b % 32)) [ none ↦ 0 | some c ↦ c ]

-- One code from the eight random bytes of its turn: the inner loop, from `j` on.
unfoldable pub symbols : ℕ → List ℕ → Text
symbols j [] = []
symbols j (b ∷ bs) =
    let rest = symbols (j + 1) bs in if j == 3 then symbol b ∷ 45 ∷ rest else symbol b ∷ rest

-- GenerateRecoveryCodes, from the bytes that rand.Read gives turn by turn.
unfoldable pub generate_recovery_codes : Primitives → List (List ℕ) → List Text × List Text
unfolding symbols
generate_recovery_codes p rounds =
    (map (symbols 0) rounds, map (λ bs. p.sha256_hex (symbols 0 bs)) rounds)
