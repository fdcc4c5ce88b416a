-- ===== src/TwoFactor/Recovery.antt =====
-- The index that VerifyRecoveryCode returns, and the codes that GenerateRecoveryCodes makes.
use alexandryn.Base.{
  ℕ, zero, suc, ◌+◌, ◌%◌, ◌<◌, ◌≡◌, refl, ap, ◌∙◌, subst, ◌⊎◌, inl, inr, Bool, true, false, ◌&&◌,
  some, List, [], ◌∷◌, map, arith, ltb, ◌==◌, Bool-cases, length, all, any, All, all-weaken, pos,
  negsuc, Text, text_eq, text_eq_iff, text_eq_refl, is_space, trim_space,
}
use alexandryn.TwoFactor.Codes.{is_solid, trim_space_solid}
use alexandryn.TwoFactor.{
  Primitives, get_elem?, charset, symbols, symbol, verify_from, verify_recovery_code,
  generate_recovery_codes,
}

-- The hash stands at the index, and at none before it.
abbrev IsFirst : Text → ℕ → List Text → Type 0
IsFirst hash i [] = ⊥
IsFirst hash zero (stored ∷ hashes) = hash ≡ stored
IsFirst hash (suc i) (stored ∷ hashes) = (text_eq hash stored ≡ false) × IsFirst hash i hashes

abbrev FromIndex : ℕ → Text → List Text → Type 0
FromIndex start hash hashes =
    ((n : ℕ) × (verify_from start hash hashes ≡ pos (start + n)) × IsFirst hash n hashes)
    ⊎ ((verify_from start hash hashes ≡ negsuc 0) × (any (text_eq hash) hashes ≡ false))

verify_from_cases : (start : ℕ) (hash : Text) (hashes : List Text) → FromIndex start hash hashes
unfolding verify_from any
verify_from_cases start hash [] = inr (refl, refl)
verify_from_cases start hash (stored ∷ hashes) = elim (Bool-cases (text_eq hash stored)) [
  | inl y ↦ inl (
    0,
    rw (y, verify_from) (let same : start ≡ start + 0 = omega arith in ap pos same),
    (text_eq_iff hash stored).0 y,
  )
  | inr n ↦ elim (verify_from_cases (start + 1) hash hashes) [
    | inl (i, e, f) ↦ inl (
      suc i,
      rw (n, verify_from, e)
          (let same : start + 1 + i ≡ start + suc i = omega arith in ap pos same),
      (n, f),
    )
    | inr (e, f) ↦ inr (rw (n, verify_from, e) refl, rw (n, f) refl)
  ]
]

-- VerifyRecoveryCode returns the least index whose stored hash is that of the trimmed code in upper
-- case, and -1 exactly when no stored hash is.
verify_recovery_code_cases :
    (p : Primitives) (raw_code : Text) (hashes : List Text)
    → ((n : ℕ) × (verify_recovery_code p raw_code hashes ≡ pos n)
        × IsFirst (p.sha256_hex (trim_space (p.to_upper raw_code))) n hashes)
      ⊎ ((verify_recovery_code p raw_code hashes ≡ negsuc 0)
          × (any (text_eq (p.sha256_hex (trim_space (p.to_upper raw_code)))) hashes ≡ false))
unfolding verify_recovery_code
verify_recovery_code_cases p raw_code hashes =
    elim (verify_from_cases 0 (p.sha256_hex (trim_space (p.to_upper raw_code))) hashes) [
      | inl (n, e, f) ↦ inl (n, e ∙ (let same : 0 + n ≡ n = omega arith in ap pos same), f)
      | inr never ↦ inr never
    ]

abbrev pub Spendable : Primitives → List Text → Text → Type 0
Spendable p hashes given =
    (n : ℕ) × (verify_recovery_code p given hashes ≡ pos n) × IsFirst (p.sha256_hex given) n hashes

any-member :
    (p : Primitives) (code : List ℕ) (rounds : List (List ℕ)) (hash : Text)
    → any (text_eq hash) (map (λ bs. p.sha256_hex (symbols 0 bs)) rounds) ≡ true
    → any (text_eq hash) (map (λ bs. p.sha256_hex (symbols 0 bs)) (code ∷ rounds)) ≡ true
unfolding any
any-member p code rounds hash h = ground arith

-- Every code that is handed out is found among the stored hashes.
spendable :
    (p : Primitives) (rounds : List (List ℕ)) (hashes : List Text)
    → ((bs : List ℕ) → trim_space (p.to_upper (symbols 0 bs)) ≡ symbols 0 bs)
    → All (λ c. any (text_eq (p.sha256_hex c)) hashes ≡ true) (map (symbols 0) rounds)
    → All (Spendable p hashes) (map (symbols 0) rounds)
spendable p [] hashes same h = tt
spendable p (bs ∷ rounds) hashes same (h, hs) = (
  elim (verify_recovery_code_cases p (symbols 0 bs) hashes) [
    | inl (n, e, f) ↦ (n, e, subst (λ (x : Text). IsFirst (p.sha256_hex x) n hashes) (same bs) f)
    | inr (e, f) ↦ cc (rw (same bs) at f)
  ],
  spendable p rounds hashes same hs,
)

codes-stored :
    (p : Primitives) (rounds : List (List ℕ))
    → All
        (λ c.
          any (text_eq (p.sha256_hex c)) (map (λ bs. p.sha256_hex (symbols 0 bs)) rounds) ≡ true)
        (map (symbols 0) rounds)
unfolding any
codes-stored p [] = tt
codes-stored p (bs ∷ rounds) =
    (rw (text_eq_refl (p.sha256_hex (symbols 0 bs))) refl, later rounds (codes-stored p rounds))
  where
    later :
        (rest : List (List ℕ))
        → All
            (λ c.
              any (text_eq (p.sha256_hex c)) (map (λ r. p.sha256_hex (symbols 0 r)) rounds) ≡ true)
            (map (symbols 0) rest)
        → All
            (λ c.
              any (text_eq (p.sha256_hex c)) (map (λ r. p.sha256_hex (symbols 0 r)) (bs ∷ rounds))
              ≡ true)
            (map (symbols 0) rest)
    later [] h = tt
    later (r ∷ rest) (h, hs) =
        (any-member p bs rounds (p.sha256_hex (symbols 0 r)) h, later rest hs)

-- The codes' characters: the dash, digits and capitals.
abbrev is_code_char : ℕ → Bool
is_code_char c = ltb 44 c && ltb c 91

char_at :
    (cs : Text) (i c : ℕ)
    → all is_code_char cs ≡ true
    → get_elem? cs i ≡ some c
    → is_code_char c ≡ true
unfolding all
char_at [] i c h e = cc e
char_at (x ∷ cs) zero c h e = ground arith
char_at (x ∷ cs) (suc i) c h e = char_at cs i c (ground arith) e

char_there : (cs : Text) (i : ℕ) → i < length cs → (c : ℕ) × (get_elem? cs i ≡ some c)
char_there [] i lt = absurd (omega arith)
char_there (b ∷ bs) zero lt = (b, refl)
char_there (b ∷ bs) (suc i) lt = char_there bs i (omega arith)

symbol-is_code_char : (b : ℕ) → is_code_char (symbol b) ≡ true
symbol-is_code_char b =
    let (c, e) = char_there charset (b % 32) (omega arith) in
    rw (e, symbol) (char_at charset (b % 32) c (unfold all in refl) e)

symbols-all : (j : ℕ) (bs : List ℕ) → all is_code_char (symbols j bs) ≡ true
unfolding symbols all
symbols-all j [] = refl
symbols-all j (b ∷ bs) = elim (Bool-cases (j == 3)) [
  | inl y ↦ rw (y, symbol-is_code_char b) (symbols-all (j + 1) bs)
  | inr n ↦ rw (n, symbol-is_code_char b) (symbols-all (j + 1) bs)
]

-- Every recovery code that is generated is verified against the hashes generated with it, at the first
-- index that stores its hash. strings.ToUpper is taken to leave dashes, digits and capitals alone.
pub verify_recovery_code-generate_recovery_codes :
    (p : Primitives) (rounds : List (List ℕ))
    → ((s : Text) → all is_code_char s ≡ true → p.to_upper s ≡ s)
    → All (Spendable p (generate_recovery_codes p rounds).1) (generate_recovery_codes p rounds).0
unfolding generate_recovery_codes
verify_recovery_code-generate_recovery_codes p rounds upper =
    spendable p rounds _
      (λ bs. ap trim_space (upper (symbols 0 bs) (symbols-all 0 bs)) ∙ untrimmed bs)
      (codes-stored p rounds)
  where
    untrimmed : (bs : List ℕ) → trim_space (symbols 0 bs) ≡ symbols 0 bs
    untrimmed bs =
        unfold is_space in
        trim_space_solid (symbols 0 bs)
          (all-weaken is_code_char is_solid (λ c d. ground arith) (symbols 0 bs) (symbols-all 0 bs))
