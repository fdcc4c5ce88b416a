-- ===== src/TwoFactor/Codes.antt =====
-- The codes that generateHOTP writes.
use alexandryn.Base.{
  ℕ, zero, suc, ◌+◌, ◌-◌, ◌*◌, ◌/◌, ◌%◌, ◌^◌, ◌≤◌, ◌<◌, ◌≡◌, refl, Bool, true, not, ◌&&◌, some, [],
  ◌∷◌, arith, leb, length, all, all-reverse, Text, is_space, trim_left, trim_space,
}
use mathlib.Core.List.{reverse, reverse-reverse}
use alexandryn.TwoFactor.{
  Primitives, get_elem?, put_uint64, six_digits, digits, truncate, generate_hotp,
}

abbrev pub is_digit : ℕ → Bool
is_digit c = leb 48 c && leb c 57

abbrev pub is_solid : ℕ → Bool
is_solid c = not (is_space c)

-- A text without white space has nothing to trim.
trim_left_solid : (s : Text) → all is_solid s ≡ true → trim_left s ≡ s
unfolding all trim_left
trim_left_solid [] h = refl
trim_left_solid (c ∷ s) h = ground arith

pub trim_space_solid : (s : Text) → all is_solid s ≡ true → trim_space s ≡ s
unfolding trim_space
trim_space_solid s h =
    rw (trim_left_solid s h, trim_left_solid (reverse s) (all-reverse is_solid s h))
      (reverse-reverse s)

get_elem?-some : (h : Text) (i : ℕ) → i < length h → (b : ℕ) × (get_elem? h i ≡ some b)
get_elem?-some [] i lt = absurd (omega arith)
get_elem?-some (b ∷ bs) zero lt = (b, refl)
get_elem?-some (b ∷ bs) (suc i) lt = get_elem?-some bs i (omega arith)

truncate-some : (h : Text) → 20 ≤ length h → (n : ℕ) × (truncate h ≡ some n) × (n < 2 ^ 31)
unfolding truncate
truncate-some h long =
    let (last, e) = get_elem?-some h (length h - 1) (omega arith) in
    let (b0, e0) = get_elem?-some h (last % 16) (omega arith) in
    let (b1, e1) = get_elem?-some h (last % 16 + 1) (omega arith) in
    let (b2, e2) = get_elem?-some h (last % 16 + 2) (omega arith) in
    let (b3, e3) = get_elem?-some h (last % 16 + 3) (omega arith) in
    (
      b0 % 128 * 2 ^ 24 + b1 % 256 * 2 ^ 16 + b2 % 256 * 2 ^ 8 + b3 % 256,
      rw (e, truncate, e0, e1, e2, e3) refl,
      omega arith,
    )

digit-is_digit : (n : ℕ) → is_digit (48 + n % 10) ≡ true
digit-is_digit n = ground arith

six_digits-all : (n : ℕ) → all is_digit (six_digits n) ≡ true
unfolding all
six_digits-all n =
    rw
      (
        digit-is_digit (n / 100000),
        digit-is_digit (n / 10000),
        digit-is_digit (n / 1000),
        digit-is_digit (n / 100),
        digit-is_digit (n / 10),
        digit-is_digit n,
      )
      refl

-- The decimal value of a text of digits.
unfoldable pub value_of : ℕ → Text → ℕ
value_of n [] = n
value_of n (c ∷ s) = value_of (10 * n + (c - 48)) s

six_digits-value_of : (n : ℕ) → n < 1000000 → value_of 0 (six_digits n) ≡ n
unfolding value_of
six_digits-value_of n lt = omega arith

-- Over a MAC of at least 20 bytes, as HMAC-SHA1's is, no index leaves it: generateHOTP always returns,
-- and what it returns is six decimal digits, the value of a 31-bit number modulo a million.
pub generate_hotp-digits :
    (p : Primitives) (secret : Text) (counter : ℕ)
    → ((key message : Text) → 20 ≤ length (p.hmac_sha1 key message))
    → (otp : Text) × (n : ℕ) × (generate_hotp p secret counter ≡ some otp)
      × (length otp ≡ digits)
      × (all is_digit otp ≡ true)
      × (truncate (p.hmac_sha1 secret (put_uint64 counter)) ≡ some n)
      × (n < 2 ^ 31)
      × (value_of 0 otp ≡ n % 1000000)
unfolding generate_hotp
generate_hotp-digits p secret counter long =
    let (n, e, small) =
      truncate-some (p.hmac_sha1 secret (put_uint64 counter)) (long secret (put_uint64 counter)) in
    (
      six_digits (n % 1000000),
      n,
      rw (e, generate_hotp) refl,
      refl,
      six_digits-all (n % 1000000),
      e,
      small,
      six_digits-value_of (n % 1000000) (omega arith),
    )
