-- ===== src/Catalogue/Texts/Isbn.antt =====
-- Which errors the check digits of an ISBN find.
use alexandryn.Base.{
  ℕ, ◌+◌, ◌-◌, ◌*◌, ◌%◌, ◌≡◌, refl, ap, inl, inr, true, [], ◌∷◌, ◌++◌, arith, ◌==◌, if◌then◌else◌,
  Bool-cases, &&-true, length, all, all-append, Text,
}
use alexandryn.Catalogue.Texts.{is_digit, isbn13_loop, is_valid_isbn13}

-- The weight of the digit at index `i`.
abbrev weight13 : ℕ → ℕ
weight13 i = if i % 2 == 0 then 1 else 3

-- The weighted sum of the digits from index `i` on.
total13 : ℕ → Text → ℕ
total13 i [] = 0
total13 i (c ∷ s) = (if i % 2 == 0 then c - b'0' else (c - b'0') * 3) + total13 (i + 1) s

total13-append : (s t : Text) (i : ℕ) → total13 i (s ++ t) ≡ total13 i s + total13 (i + length s) t
unfolding total13
total13-append [] t i =
    let here : i ≡ i + 0 = omega arith in omega (arith, ap (λ (k : ℕ). total13 k t) here)
total13-append (c ∷ s) t i =
    let step : i + 1 + length s ≡ i + length (c ∷ s) = omega arith in
    omega (arith, total13-append s t (i + 1), ap (λ (k : ℕ). total13 k t) step)

-- A sum that the loop accepts is one of digits, and a multiple of 10.
loop13-total :
    (i sum : ℕ) (s : Text)
    → isbn13_loop i sum s ≡ true
    → (all is_digit s ≡ true) × ((sum + total13 i s) % 10 ≡ 0)
unfolding isbn13_loop total13 all
loop13-total i sum [] h = (refl, ground arith)
loop13-total i sum (c ∷ s) h = elim (Bool-cases (is_digit c)) [
  | inl d ↦
      let (digits, e) =
        loop13-total (i + 1) (sum + (if i % 2 == 0 then c - b'0' else (c - b'0') * 3)) s
          (rw (d, isbn13_loop) at h) in
      (rw (d, digits), omega (arith, e))
  | inr n ↦ cc (rw (n, isbn13_loop) at h)
]

digit_at : (s t : Text) (c : ℕ) → all is_digit (s ++ (c ∷ t)) ≡ true → is_digit c ≡ true
unfolding all
digit_at s t c h =
    (&&-true (is_digit c) (all is_digit t)
      ((&&-true _ _ (rw (all-append is_digit s (c ∷ t)) at h)).1)).0

-- ISBN-13 finds every error in a single digit: two valid numbers that agree but for one place agree
-- there too.
pub is_valid_isbn13-one_digit :
    (s t : Text) (c d : ℕ)
    → is_valid_isbn13 (s ++ (c ∷ t)) ≡ true
    → is_valid_isbn13 (s ++ (d ∷ t)) ≡ true
    → c ≡ d
unfolding is_valid_isbn13 total13
is_valid_isbn13-one_digit s t c d h k =
    let (ds, p) = loop13-total 0 0 (s ++ (c ∷ t)) h in
    let (es, q) = loop13-total 0 0 (s ++ (d ∷ t)) k in
    let dc = digit_at s t c ds in
    let dd = digit_at s t d es in
    let a = total13-append s (c ∷ t) 0 in
    let b = total13-append s (d ∷ t) 0 in
    elim (Bool-cases ((0 + length s) % 2 == 0)) [
      | inl e ↦ ground (arith, p, q, a, b, dc, dd)
      | inr n ↦ ground (arith, p, q, a, b, dc, dd)
    ]
