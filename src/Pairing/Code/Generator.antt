-- ===== src/Pairing/Code/Generator.antt =====
-- The codes of the generator, against the constructor.
use alexandryn.Base.{
  ℕ, zero, suc, ◌+◌, ◌*◌, ◌/◌, ◌%◌, ◌^◌, ◌<◌, ◌≡◌, refl, sym, ap, ◌∙◌, Bool, true, ◌&&◌, [], ◌∷◌,
  arith, ◌==◌, if◌then◌else◌, ==_iff, length, all, Text, ok,
}
use native.Mathlib.Nat.{pow-suc}
use alexandryn.Pairing.Code.{
  Entropy, is_crockford, crockford_alphabet, crockford_char, crockford_digits, packed,
  encode_crockford40, new_pairing_code,
}
use alexandryn.Pairing.Code.Parsing.{new_pairing_code-display}

-- Evaluates a test at every number below a bound.
passes_below : (ℕ → Bool) → ℕ → Bool
passes_below test zero = true
passes_below test (suc bound) = passes_below test bound && test bound

passes_below_at :
    (test : ℕ → Bool) (bound k : ℕ) → passes_below test bound ≡ true → k < bound → test k ≡ true
unfolding passes_below
passes_below_at test zero k passed small = absurd (omega arith)
passes_below_at test (suc bound) k passed small = ground (arith, passes_below_at test bound k)

crockford_char-mem : (k : ℕ) → k < 32 → is_crockford (crockford_char k) ≡ true
unfolding is_crockford crockford_char passes_below
crockford_char-mem k h = passes_below_at (λ x. is_crockford (crockford_char x)) 32 k refl h

-- The place of a character in the alphabet.
place : ℕ → Text → ℕ
place c [] = 0
place c (x ∷ xs) = if x == c then 0 else suc (place c xs)

place-crockford_char : (k : ℕ) → k < 32 → place (crockford_char k) crockford_alphabet ≡ k
unfolding place crockford_char passes_below
place-crockford_char k h =
    (==_iff _ k).0
      (passes_below_at (λ x. place (crockford_char x) crockford_alphabet == x) 32 k refl h)

-- The value of a text of base-32 digits.
value : ℕ → Text → ℕ
value acc [] = acc
value acc (c ∷ s) = value (acc * 32 + place c crockford_alphabet) s

value-crockford_digits :
    (n v : ℕ) (out : Text) → v < 32 ^ n → value 0 (crockford_digits n v out) ≡ value v out
unfolding crockford_digits value
value-crockford_digits zero v out h =
    let none_left : 0 ≡ v = omega arith in ap (λ (k : ℕ). value k out) none_left
value-crockford_digits (suc n) v out h =
    value-crockford_digits n (v / 32) (crockford_char (v % 32) ∷ out) (omega (arith, pow-suc 32 n))
    ∙ rw (place-crockford_char (v % 32) (omega arith))
        (let whole : v / 32 * 32 + v % 32 ≡ v = omega arith in ap (λ (k : ℕ). value k out) whole)

crockford_digits-mem :
    (n v : ℕ) (out : Text)
    → all is_crockford out ≡ true
    → all is_crockford (crockford_digits n v out) ≡ true
unfolding crockford_digits all
crockford_digits-mem zero v out h = h
crockford_digits-mem (suc n) v out h =
    crockford_digits-mem n (v / 32) (crockford_char (v % 32) ∷ out)
      (rw (crockford_char-mem (v % 32) (omega arith)) h)

length-crockford_digits :
    (n v : ℕ) (out : Text) → length (crockford_digits n v out) ≡ n + length out
unfolding crockford_digits
length-crockford_digits zero v out = omega arith
length-crockford_digits (suc n) v out =
    omega (arith, length-crockford_digits n (v / 32) (crockford_char (v % 32) ∷ out))

-- Each field is a byte.
pub record IsBytes (e : Entropy) : Type 0 where
  pub byte0 : e.b0 < 256
  pub byte1 : e.b1 < 256
  pub byte2 : e.b2 < 256
  pub byte3 : e.b3 < 256
  pub byte4 : e.b4 < 256

packed_bound : (e : Entropy) → IsBytes e → packed e < 32 ^ 8
packed_bound e h = omega arith

-- Every entropy is encoded as a text that NewPairingCode accepts unchanged.
pub encode_crockford40-accepted :
    (upper : ℕ → ℕ) (e : Entropy)
    → new_pairing_code upper (encode_crockford40 e) ≡ ok (record { b = encode_crockford40 e })
unfolding encode_crockford40
encode_crockford40-accepted upper e =
    (new_pairing_code-display upper (record { b = encode_crockford40 e })
      (record {
        eight = length-crockford_digits 8 (packed e) [];
        alphabet = crockford_digits-mem 8 (packed e) [] (unfold all in refl);
      })).1

-- Two different entropies of five bytes each have different codes, so a code keeps all 40 random
-- bits.
pub encode_crockford40-injective :
    (e f : Entropy) → IsBytes e → IsBytes f → encode_crockford40 e ≡ encode_crockford40 f → e ≡ f
unfolding encode_crockford40 value
encode_crockford40-injective e f he hf same = ground (arith, packed_same)
  where
    packed_same : packed e ≡ packed f
    packed_same =
        sym (value-crockford_digits 8 (packed e) [] (packed_bound e he))
        ∙ ap (λ (t : Text). value 0 t) same
        ∙ value-crockford_digits 8 (packed f) [] (packed_bound f hf)
