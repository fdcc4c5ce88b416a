-- ===== src/TwoFactor/Samples.antt =====
-- One-time and recovery codes over stand-ins for the hashes.
use alexandryn.Base.{
  ℕ, ◌%◌, ◌^◌, ◌≤◌, ◌<◌, ◌≡◌, refl, ◌⊎◌, true, none, some, List, [], ◌∷◌, arith, length, all, All,
  pos, negsuc, Text, lit, text_eq, byte_len, trim_space,
}
use alexandryn.TwoFactor.{
  Primitives, code, answers, digits, put_uint64, truncate, generate_hotp, generate_code,
  validate_code, shifted, generate_recovery_codes,
}
use alexandryn.TwoFactor.Codes.{is_digit, generate_hotp-digits, value_of}
use alexandryn.TwoFactor.Window.{validate_code-generate_code, validate_code-accepted}
use alexandryn.TwoFactor.Recovery.{Spendable, verify_recovery_code-generate_recovery_codes}

-- Twenty bytes that depend on the counter's last byte.
abbrev stretch : Text → Text
stretch (a ∷ b ∷ c ∷ d ∷ e ∷ f ∷ g ∷ last ∷ s) =
    last ∷ 1 ∷ 2 ∷ 3 ∷ 4 ∷ 5 ∷ 6 ∷ 7 ∷ 8 ∷ 9 ∷ 10 ∷ 11 ∷ 12 ∷ 13 ∷ 14 ∷ 15 ∷ 16 ∷ 17 ∷ 18 ∷ 32 ∷ []
stretch s =
    0 ∷ 1 ∷ 2 ∷ 3 ∷ 4 ∷ 5 ∷ 6 ∷ 7 ∷ 8 ∷ 9 ∷ 10 ∷ 11 ∷ 12 ∷ 13 ∷ 14 ∷ 15 ∷ 16 ∷ 17 ∷ 18 ∷ 32 ∷ []

stretch-long : (s : Text) → 20 ≤ length (stretch s)
stretch-long [] = omega arith
stretch-long (a ∷ []) = omega arith
stretch-long (a ∷ b ∷ []) = omega arith
stretch-long (a ∷ b ∷ c ∷ []) = omega arith
stretch-long (a ∷ b ∷ c ∷ d ∷ []) = omega arith
stretch-long (a ∷ b ∷ c ∷ d ∷ e ∷ []) = omega arith
stretch-long (a ∷ b ∷ c ∷ d ∷ e ∷ f ∷ []) = omega arith
stretch-long (a ∷ b ∷ c ∷ d ∷ e ∷ f ∷ g ∷ []) = omega arith
stretch-long (a ∷ b ∷ c ∷ d ∷ e ∷ f ∷ g ∷ last ∷ s) = omega arith

abbrev plain : Primitives
plain = record {
  hmac_sha1 = λ key message. stretch message;
  decode32 = λ s. some s;
  decode32_padded = λ s. none;
  sha256_hex = λ s. s;
  to_upper = λ s. s;
}

abbrev secret : Text
secret = lit "JBSWY3DP"

abbrev at_noon : Text
at_noon = lit "331971"

generate_hotp-digits_example :
    (otp : Text) × (n : ℕ) × (generate_hotp plain secret 7 ≡ some otp)
    × (length otp ≡ digits)
    × (all is_digit otp ≡ true)
    × (truncate (plain.hmac_sha1 secret (put_uint64 7)) ≡ some n)
    × (n < 2 ^ 31)
    × (value_of 0 otp ≡ n % 1000000)
generate_hotp-digits_example =
    generate_hotp-digits plain secret 7 (λ key message. stretch-long message)

at_noon-code : generate_code plain secret (pos 3600) ≡ code at_noon
unfolding generate_code
at_noon-code = refl

validate_code-generate_code_example : validate_code plain secret at_noon (pos 3659) ≡ answers true
validate_code-generate_code_example =
    validate_code-generate_code plain (λ key message. stretch-long message) secret secret at_noon
      3659 3600 (unfold trim_space in unfold generate_code in refl) at_noon-code (omega arith)
      (omega arith) (omega arith) (omega arith)

at_noon-accepted : validate_code plain secret at_noon (pos 3570) ≡ answers true
unfolding validate_code text_eq byte_len trim_space
at_noon-accepted = refl

validate_code-accepted_example :
    (byte_len (trim_space at_noon) ≡ digits)
    × ((generate_code plain secret (shifted (pos 3570) (pos 0)) ≡ code (trim_space at_noon))
        ⊎ ((generate_code plain secret (shifted (pos 3570) (negsuc 0)) ≡ code (trim_space at_noon))
            ⊎ (generate_code plain secret (shifted (pos 3570) (pos 1))
                ≡ code (trim_space at_noon))))
validate_code-accepted_example =
    validate_code-accepted plain secret at_noon (pos 3570) at_noon-accepted

abbrev rounds : List (List ℕ)
rounds = (0 ∷ 1 ∷ 2 ∷ 3 ∷ 4 ∷ 5 ∷ 6 ∷ 7 ∷ []) ∷ (31 ∷ 63 ∷ 8 ∷ 9 ∷ 10 ∷ 11 ∷ 12 ∷ 13 ∷ []) ∷ []

verify_recovery_code-generate_recovery_codes_run :
    All
      (Spendable plain (generate_recovery_codes plain rounds).1)
      (generate_recovery_codes plain rounds).0
verify_recovery_code-generate_recovery_codes_run =
    verify_recovery_code-generate_recovery_codes plain rounds (λ s h. refl)
