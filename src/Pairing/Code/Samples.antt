-- ===== src/Pairing/Code/Samples.antt =====
-- The pairing code at work on concrete texts.
use alexandryn.Base.{
  ℕ, ◌≡◌, refl, false, [], arith, filter, all, any, lit, byte_len, trim_space, ok, err,
}
use alexandryn.Pairing.Code.{
  PairingCode, Entropy, is_crockford, to_upper, normalize, new_pairing_code, equal, display,
  code_error, encode_crockford40,
}
use alexandryn.Pairing.Code.Parsing.{IsWellFormed, new_pairing_code-display}
use alexandryn.Pairing.Code.Generator.{
  IsBytes, encode_crockford40-accepted, encode_crockford40-injective,
}

abbrev same_case : ℕ → ℕ
same_case r = r

abbrev sample_code : PairingCode
sample_code = record { b = lit "ABCD1234" }

sample_code-IsWellFormed : IsWellFormed sample_code
unfolding is_crockford all any
sample_code-IsWellFormed = record { eight = refl; alphabet = refl }

-- Lower case, the hyphen and the spaces around are forgiven; the letter O is not.
forgiving : new_pairing_code same_case (lit "  abcd-1234 ") ≡ ok sample_code
unfolding new_pairing_code normalize to_upper is_crockford trim_space byte_len filter all any
forgiving = refl

letter_o : new_pairing_code same_case (lit "ABCD-123O") ≡ err code_error
unfolding new_pairing_code normalize to_upper is_crockford trim_space byte_len filter all any
letter_o = refl

-- The zero value is no one's equal, its own neither.
zero_value : equal (record { b = [] }) (record { b = [] }) ≡ false
unfolding equal
zero_value = refl

new_pairing_code-display_example :
    (new_pairing_code same_case (display sample_code) ≡ ok sample_code)
    × (new_pairing_code same_case sample_code.b ≡ ok sample_code)
new_pairing_code-display_example =
    new_pairing_code-display same_case sample_code sample_code-IsWellFormed

abbrev entropy_a : Entropy
entropy_a = record { b0 = 1; b1 = 2; b2 = 250; b3 = 0; b4 = 255 }

IsBytes-entropy_a : IsBytes entropy_a
IsBytes-entropy_a = omega arith

encode_crockford40-accepted_run :
    new_pairing_code same_case (encode_crockford40 entropy_a)
    ≡ ok (record { b = encode_crockford40 entropy_a })
encode_crockford40-accepted_run = encode_crockford40-accepted same_case entropy_a

encode_crockford40-injective_run : entropy_a ≡ entropy_a
encode_crockford40-injective_run =
    encode_crockford40-injective entropy_a entropy_a IsBytes-entropy_a IsBytes-entropy_a refl
