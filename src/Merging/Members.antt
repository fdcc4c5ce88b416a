-- ===== src/Merging/Members.antt =====
-- Membership and distinctness of lists of identifiers, as predicates by recursion.
use alexandryn.Base.{
  ◌≡◌, refl, ◌⊎◌, inl, inr, true, false, List, [], ◌∷◌, ◌++◌, arith, Bool-cases, any, Text, text_eq,
  text_eq_iff,
}
use alexandryn.Merging.Chain.{member}

abbrev pub In : Text → List Text → Type 0
In x [] = ⊥
In x (y ∷ ys) = (y ≡ x) ⊎ In x ys

pub member_of_In : (x : Text) (ys : List Text) → In x ys → member x ys ≡ true
unfolding member any
member_of_In x [] h = absurd h
member_of_In x (y ∷ ys) (inl e) = rw ((text_eq_iff y x).1 e)
member_of_In x (y ∷ ys) (inr h) = ground (arith, member_of_In x ys h)

pub In-of_member : (x : Text) (ys : List Text) → member x ys ≡ true → In x ys
unfolding member any
In-of_member x [] h = cc
In-of_member x (y ∷ ys) h = elim (Bool-cases (text_eq y x)) [
  | inl e ↦ inl ((text_eq_iff y x).0 e)
  | inr n ↦ inr (In-of_member x ys (rw n at h))
]

pub member_of_not_In : (x : Text) (ys : List Text) → ¬ (In x ys) → member x ys ≡ false
member_of_not_In x ys h = elim (Bool-cases (member x ys)) [
  | inl m ↦ absurd (h (In-of_member x ys m))
  | inr n ↦ n
]

pub In-append : (x : Text) (ys zs : List Text) → In x (ys ++ zs) → In x ys ⊎ In x zs
In-append x [] zs h = inr h
In-append x (y ∷ ys) zs (inl e) = inl (inl e)
In-append x (y ∷ ys) zs (inr h) = elim (In-append x ys zs h) [ inl l ↦ inl (inr l) | inr r ↦ inr r ]

pub In-append_left : (x : Text) (ys zs : List Text) → In x ys → In x (ys ++ zs)
In-append_left x [] zs h = absurd h
In-append_left x (y ∷ ys) zs (inl e) = inl e
In-append_left x (y ∷ ys) zs (inr h) = inr (In-append_left x ys zs h)

pub In-append_right : (x : Text) (ys zs : List Text) → In x zs → In x (ys ++ zs)
In-append_right x [] zs h = h
In-append_right x (y ∷ ys) zs h = inr (In-append_right x ys zs h)

abbrev pub Distinct : List Text → Type 0
Distinct [] = Unit
Distinct (x ∷ xs) = (¬ (In x xs)) × Distinct xs

pub Distinct-append :
    (xs ys : List Text)
    → Distinct xs
    → Distinct ys
    → ((x : Text) → In x xs → In x ys → ⊥)
    → Distinct (xs ++ ys)
Distinct-append [] ys dx dy apart = dy
Distinct-append (x ∷ xs) ys dx dy apart = (
  λ h. elim (In-append x xs ys h) [ inl l ↦ dx.0 l | inr r ↦ apart x (inl refl) r ],
  Distinct-append xs ys dx.1 dy (λ z l r. apart z (inr l) r),
)
