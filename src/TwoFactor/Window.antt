-- ===== src/TwoFactor/Window.antt =====
-- Which codes ValidateCode accepts at a time.
use alexandryn.Base.{
  ℕ, ◌+◌, ◌/◌, ◌≤◌, ◌≡◌, refl, sym, ap, ◌∙◌, ◌⊎◌, inl, inr, true, Option, some, List, [], ◌∷◌,
  arith, leb, ◌==◌, Bool-cases, length, all, all-weaken, ℤ, pos, negsuc, max_int64, Text, text_eq,
  text_eq_iff, text_eq_refl, rune_len, byte_len, is_space, trim_space,
}
use alexandryn.TwoFactor.{
  Primitives, uint64_of, shifted, Generated, panicked, undecodable, code, answers, digits,
  generate_hotp, decode_secret, generate_code, validate_at, validate_code,
}
use alexandryn.TwoFactor.Codes.{is_digit, is_solid, trim_space_solid, generate_hotp-digits}

trim_space_digits : (s : Text) → all is_digit s ≡ true → trim_space s ≡ s
unfolding is_space
trim_space_digits s h = trim_space_solid s (all-weaken is_digit is_solid (λ c d. ground arith) s h)

byte_len_digits : (s : Text) → all is_digit s ≡ true → byte_len s ≡ length s
unfolding all byte_len rune_len
byte_len_digits [] h = refl
byte_len_digits (c ∷ s) h = ground (arith, byte_len_digits s)

module _ (p : Primitives)
    (long : (key message : Text) → 20 ≤ length (p.hmac_sha1 key message)) where
  generated :
      (secret bytes : Text) (t : ℤ)
      → decode_secret p secret ≡ some bytes
      → (otp : Text) × (generate_hotp p bytes (uint64_of t / 30) ≡ some otp)
        × (generate_code p secret t ≡ code otp)
        × (length otp ≡ digits)
        × (all is_digit otp ≡ true)
  unfolding generate_code
  generated secret bytes t d =
      let (otp, _, e, l, a, _, _, _) = generate_hotp-digits p bytes (uint64_of t / 30) long in
      (otp, e, rw (d, generate_code, e) refl, l, a)

  same_step :
      (secret bytes : Text) (t u : ℤ)
      → decode_secret p secret ≡ some bytes
      → uint64_of t / 30 ≡ uint64_of u / 30
      → generate_code p secret t ≡ generate_code p secret u
  same_step secret bytes t u d same =
      let (a, ea, ga, _, _) = generated secret bytes t d in
      let (b, eb, gb, _, _) = generated secret bytes u d in
      let both : ◌≡◌ {A = Option Text} (some a) (some b) =
        sym ea ∙ ap (generate_hotp p bytes) same ∙ eb in
      ga ∙ (let alike : a ≡ b = cc in ap code alike) ∙ sym gb

  -- The loop answers whether the code is that of one of its offsets.
  found_here :
      (secret given : Text) (t offset : ℤ) (offsets : List ℤ)
      → generate_code p secret (shifted t offset) ≡ code given
      → validate_at p secret given t (offset ∷ offsets) ≡ answers true
  unfolding validate_at
  found_here secret given t offset offsets e = rw (e, validate_at, text_eq_refl given) refl

  found_later :
      (secret bytes given : Text) (t offset : ℤ) (offsets : List ℤ)
      → decode_secret p secret ≡ some bytes
      → validate_at p secret given t offsets ≡ answers true
      → validate_at p secret given t (offset ∷ offsets) ≡ answers true
  unfolding validate_at
  found_later secret bytes given t offset offsets d h =
      let (otp, _, e, _, _) = generated secret bytes (shifted t offset) d in
      elim (Bool-cases (text_eq given otp)) [
        | inl y ↦ rw (e, validate_at, y) refl
        | inr n ↦ rw (e, validate_at, n) h
      ]

  -- A code generated at one time is accepted at every time of the same, the next or the previous step
  -- of thirty seconds. Times are from 1970 on and in the range of an int64, and the secret decodes.
  pub validate_code-generate_code :
      (secret bytes otp : Text) (t u : ℕ)
      → decode_secret p secret ≡ some bytes
      → generate_code p secret (pos u) ≡ code otp
      → t + 30 ≤ max_int64
      → u ≤ max_int64
      → t / 30 ≤ u / 30 + 1
      → u / 30 ≤ t / 30 + 1
      → validate_code p secret otp (pos t) ≡ answers true
  unfolding validate_code
  validate_code-generate_code secret bytes otp t u d g tmax umax before after =
      let (otp2, _, e, l, a) = generated secret bytes (pos u) d in
      let same : otp ≡ otp2 = ground arith in
      let solid : all is_digit otp ≡ true = ap (all is_digit) same ∙ a in
      let six : byte_len (trim_space otp) ≡ 6 =
        ap byte_len (trim_space_digits otp solid)
        ∙ byte_len_digits otp solid
        ∙ ap length same
        ∙ l in
      rw (six, trim_space_digits otp solid) (in_window)
    where
      at :
          (offset : ℤ)
          → uint64_of (shifted (pos t) offset) / 30 ≡ uint64_of (pos u) / 30
          → generate_code p secret (shifted (pos t) offset) ≡ code otp
      at offset same = same_step secret bytes (shifted (pos t) offset) (pos u) d same ∙ g

      in_window : validate_at p secret otp (pos t) (pos 0 ∷ negsuc 0 ∷ pos 1 ∷ []) ≡ answers true
      in_window = elim (Bool-cases (t / 30 == u / 30)) [
        | inl now ↦
            found_here secret otp (pos t) (pos 0) (negsuc 0 ∷ pos 1 ∷ [])
              (at (pos 0) (ground arith))
        | inr later ↦ elim (Bool-cases (leb (t / 30) (u / 30))) [
          | inl next ↦ found_later secret bytes otp (pos t) (pos 0) (negsuc 0 ∷ pos 1 ∷ []) d (
              found_later secret bytes otp (pos t) (negsuc 0) (pos 1 ∷ []) d
                (found_here secret otp (pos t) (pos 1) [] (at (pos 1) (ground arith))))
          | inr last ↦
              found_later secret bytes otp (pos t) (pos 0) (negsuc 0 ∷ pos 1 ∷ []) d (
                found_here secret otp (pos t) (negsuc 0) (pos 1 ∷ [])
                  (at (negsuc 0) (ground arith)))
        ]
      ]

module _ (p : Primitives) where
  -- One turn of the loop that ends in acceptance.
  accepted_at :
      (secret given : Text) (t offset : ℤ) (offsets : List ℤ)
      → validate_at p secret given t (offset ∷ offsets) ≡ answers true
      → (generate_code p secret (shifted t offset) ≡ code given)
        ⊎ (validate_at p secret given t offsets ≡ answers true)
  unfolding validate_at
  accepted_at secret given t offset offsets h =
      turn (generate_code p secret (shifted t offset)) refl
    where
      turn :
          (r : Generated)
          → generate_code p secret (shifted t offset) ≡ r
          → (generate_code p secret (shifted t offset) ≡ code given)
            ⊎ (validate_at p secret given t offsets ≡ answers true)
      turn panicked e = cc (rw (e, validate_at) at h)
      turn undecodable e = cc (rw (e, validate_at) at h)
      turn (code expected) e = elim (Bool-cases (text_eq given expected)) [
        | inl y ↦ inl (e ∙ ap code (sym ((text_eq_iff given expected).0 y)))
        | inr n ↦ inr (rw (e, validate_at, n) at h)
      ]

  -- An accepted code has six bytes when it is trimmed, and is that of the time itself or of thirty
  -- seconds before or after it.
  pub validate_code-accepted :
      (secret given : Text) (t : ℤ)
      → validate_code p secret given t ≡ answers true
      → (byte_len (trim_space given) ≡ digits)
        × ((generate_code p secret (shifted t (pos 0)) ≡ code (trim_space given))
            ⊎ ((generate_code p secret (shifted t (negsuc 0)) ≡ code (trim_space given))
                ⊎ (generate_code p secret (shifted t (pos 1)) ≡ code (trim_space given))))
  unfolding validate_code
  validate_code-accepted secret given t h =
      elim (Bool-cases (byte_len (trim_space given) == digits)) [
        | inr n ↦ cc (rw n at h)
        | inl six ↦ (
          ground arith,
          elim (accepted_at secret (trim_space given) t (pos 0) (negsuc 0 ∷ pos 1 ∷ [])
              (rw six at h)) [
                | inl now ↦ inl now
                | inr k ↦ elim (accepted_at secret (trim_space given) t (negsuc 0) (pos 1 ∷ []) k) [
                  | inl before ↦ inr (inl before)
                  | inr l ↦ elim (accepted_at secret (trim_space given) t (pos 1) [] l) [
                    | inl after ↦ inr (inr after)
                    | inr none_left ↦ cc none_left
                  ]
                ]
              ],
        )
      ]
