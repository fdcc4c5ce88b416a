-- ===== src/Pairing/Code/Parsing.antt =====
-- What NewPairingCode accepts, and the printed forms of a code.
use mathlib.Core.List.{reverse, reverse-reverse}
use alexandryn.Base.{
  ℕ, ◌≡◌, refl, sym, ◌∙◌, subst, ◌↔◌, inl, inr, Bool, true, not, ◌&&◌, List, [], ◌∷◌, ◌++◌, map,
  arith, ltb, ◌==◌, Bool-cases, &&-true, length, take, drop, filter, all, any, all-append,
  all-reverse, all-weaken, filter-all, filter-append, take-append-drop, Text, text_eq_iff, byte_len,
  is_space, trim_left, trim_space, ok,
}
use alexandryn.Pairing.Code.{
  PairingCode, is_crockford, crockford_alphabet, to_upper, normalize, new_pairing_code, equal,
  display,
}

-- What a code is that passed the constructor.
pub record IsWellFormed (c : PairingCode) : Type 0 where
  pub eight : length c.b ≡ 8
  pub alphabet : all is_crockford c.b ≡ true

-- What holds of each listed character holds of one that is found in the list.
any-all :
    (p : ℕ → Bool) (r : ℕ) (xs : List ℕ)
    → any (λ c. c == r) xs ≡ true
    → all p xs ≡ true
    → p r ≡ true
unfolding any all
any-all p r [] h k = cc
any-all p r (x ∷ xs) h k = elim (Bool-cases (x == r)) [
  | inl e ↦ let same : x ≡ r = ground arith in rw (← same) (ground arith)
  | inr n ↦ any-all p r xs (rw n at h) (&&-true (p x) (all p xs) k).1
]

module _ (upper : ℕ → ℕ) where
  plain : ℕ → Bool
  plain r = not (is_space r) && (not (r == b'-') && (to_upper upper r == r && ltb r 0x80))

  plain-crockford : (r : ℕ) → is_crockford r ≡ true → plain r ≡ true
  unfolding is_crockford plain is_space to_upper
  plain-crockford r h = any-all plain r crockford_alphabet h (unfold all in refl)

  crockford_plain : (s : Text) → all is_crockford s ≡ true → all plain s ≡ true
  crockford_plain s h = all-weaken is_crockford plain plain-crockford s h

  -- On such text TrimSpace, the removal of hyphens and the case fold change nothing.
  map-plain : (s : Text) → all plain s ≡ true → map (to_upper upper) s ≡ s
  unfolding all plain
  map-plain [] h = refl
  map-plain (r ∷ s) h = ground (arith, map-plain s)

  byte_len-plain : (s : Text) → all plain s ≡ true → byte_len s ≡ length s
  unfolding all plain byte_len
  byte_len-plain [] h = refl
  byte_len-plain (r ∷ s) h = ground (arith, byte_len-plain s)

trim_left-solid : (s : Text) → all (λ r. not (is_space r)) s ≡ true → trim_left s ≡ s
unfolding trim_left all
trim_left-solid [] h = refl
trim_left-solid (r ∷ s) h = ground (arith)

trim_space-solid : (s : Text) → all (λ r. not (is_space r)) s ≡ true → trim_space s ≡ s
unfolding trim_space
trim_space-solid s h =
    rw (trim_left-solid s h) (
      rw (trim_left-solid (reverse s) (all-reverse (λ r. not (is_space r)) s h))
        (reverse-reverse s))

abbrev not_hyphen : ℕ → Bool
not_hyphen r = not (r == b'-')

module _ (upper : ℕ → ℕ) where
  plain_solid : (s : Text) → all (plain upper) s ≡ true → all (λ r. not (is_space r)) s ≡ true
  unfolding plain
  plain_solid s h = all-weaken (plain upper) (λ r. not (is_space r)) (λ r k. ground arith) s h

  plain_unhyphened : (s : Text) → all (plain upper) s ≡ true → filter not_hyphen s ≡ s
  unfolding plain
  plain_unhyphened s h =
      filter-all not_hyphen s (all-weaken (plain upper) not_hyphen (λ r k. ground arith) s h)

  -- The grouped form, put back together.
  normalize-grouped :
      (s t : Text) → all (plain upper) (s ++ t) ≡ true → normalize upper (s ++ (b'-' ∷ t)) ≡ s ++ t
  unfolding normalize
  normalize-grouped s t h = rw (trim_space-solid (s ++ (b'-' ∷ t)) solid) (
      rw (filter-append not_hyphen s (b'-' ∷ t)) (
        unfold filter in
        rw (plain_unhyphened s parts.0, plain_unhyphened t parts.1) (map-plain upper (s ++ t) h)))
    where
      parts : (all (plain upper) s ≡ true) × (all (plain upper) t ≡ true)
      parts = &&-true _ _ (rw (all-append (plain upper) s t) at h)

      solid : all (λ r. not (is_space r)) (s ++ (b'-' ∷ t)) ≡ true
      solid =
          rw (all-append (λ r. not (is_space r)) s (b'-' ∷ t))
            (unfold all is_space in rw (plain_solid s parts.0, plain_solid t parts.1))

  normalize-plain : (s : Text) → all (plain upper) s ≡ true → normalize upper s ≡ s
  unfolding normalize
  normalize-plain s h =
      rw (trim_space-solid s (plain_solid s h)) (rw (plain_unhyphened s h) (map-plain upper s h))

  accepts :
      (s : Text) (c : PairingCode)
      → IsWellFormed c
      → normalize upper s ≡ c.b
      → new_pairing_code upper s ≡ ok c
  unfolding new_pairing_code
  accepts s c w e =
      let short : byte_len c.b ≡ 8 =
        byte_len-plain upper c.b (crockford_plain upper c.b w.alphabet) ∙ w.eight in
      rw e (rw (short, w.alphabet))

  display_shape : (c : PairingCode) → IsWellFormed c → display c ≡ take 4 c.b ++ (b'-' ∷ drop 4 c.b)
  unfolding display
  display_shape c w = rw w.eight

  display_normal : (c : PairingCode) → IsWellFormed c → normalize upper (display c) ≡ c.b
  display_normal c w =
      let whole : all (plain upper) (take 4 c.b ++ drop 4 c.b) ≡ true =
        rw (take-append-drop 4 c.b) (crockford_plain upper c.b w.alphabet) in
      rw (display_shape c w)
        (normalize-grouped (take 4 c.b) (drop 4 c.b) whole ∙ take-append-drop 4 c.b)

  -- NewPairingCode reads back both printed forms of a well-formed code, the grouped Display and
  -- Normalized, as the code itself, whatever the upper case of letters beyond ASCII.
  pub new_pairing_code-display :
      (c : PairingCode)
      → IsWellFormed c
      → (new_pairing_code upper (display c) ≡ ok c) × (new_pairing_code upper c.b ≡ ok c)
  new_pairing_code-display c w = (
    accepts (display c) c w (display_normal c w),
    accepts c.b c w (normalize-plain c.b (crockford_plain upper c.b w.alphabet)),
  )

  new_pairing_code_parts :
      (s : Text) (c : PairingCode)
      → new_pairing_code upper s ≡ ok c
      → (byte_len c.b ≡ 8) × (all is_crockford c.b ≡ true) × (c.b ≡ normalize upper s)
  unfolding new_pairing_code
  new_pairing_code_parts s c h = ground arith

  -- A code that NewPairingCode returns is eight characters of the alphabet.
  new_pairing_code-IsWellFormed :
      (s : Text) (c : PairingCode) → new_pairing_code upper s ≡ ok c → IsWellFormed c
  new_pairing_code-IsWellFormed s c h =
      let (short, letters, _) = new_pairing_code_parts s c h in
      record {
        eight = sym (byte_len-plain upper c.b (crockford_plain upper c.b letters)) ∙ short;
        alphabet = letters;
      }

-- Equal holds exactly between two codes of eight characters with the same text; so the zero value
-- equals nothing, not even itself.
equal_iff : (c d : PairingCode) → (equal c d ≡ true) ↔ (length c.b ≡ 8) × (c.b ≡ d.b)
unfolding equal
equal_iff c d = (
  λ h. ground (arith, text_eq_iff c.b d.b),
  λ h.
      let same : length d.b ≡ 8 = subst (λ (t : Text). length t ≡ 8) h.1 h.0 in
      rw (h.0, same) ((text_eq_iff c.b d.b).1 h.1),
)
