-- ===== src/Works/Samples.antt =====
-- A small catalogue, on which the samples of the parts of this module run.
use alexandryn.Base.{
  ◌≡◌, refl, subst, inl, inr, true, Option, none, some, List, [], ◌∷◌, arith, Bool-cases, Text, lit,
  text_eq, text_eq_iff, ok,
}
use alexandryn.Merging.Members.{Distinct}
use alexandryn.Works.{Work, WorkStore, find_by_id, merged_into_of, ids}
use alexandryn.Works.Merge.Chains.{IsGrounded}
use alexandryn.Works.Resolve.Canonical.{IsCanonicalOf}

abbrev pub row : Text → Option Text → List Text → Work
row id merged_into contains = record {
  id = id;
  title = id;
  subtitle = [];
  authors = [];
  subjects = [];
  original_language = none;
  external_references = [];
  merged_into = merged_into;
  contains = contains;
}

abbrev pub emma : Text
emma = lit "emma"

abbrev pub emma2 : Text
emma2 = lit "emma2"

abbrev pub omnibus : Text
omnibus = lit "omnibus"

abbrev pub persuasion : Text
persuasion = lit "persuasion"

-- `emma2` is merged into `emma`, and the omnibus contains `emma2`.
abbrev pub shelf : WorkStore
shelf =
    row emma none []
    ∷ row emma2 (some emma) []
    ∷ row omnibus none (emma2 ∷ [])
    ∷ row persuasion none []
    ∷ []

pub emma-canonical : IsCanonicalOf shelf emma emma
unfolding merged_into_of find_by_id text_eq
emma-canonical = (0, (refl, refl))

pub emma2-canonical : IsCanonicalOf shelf emma2 emma
unfolding merged_into_of find_by_id text_eq
emma2-canonical = (1, (emma, refl, (refl, refl)))

omnibus-canonical : IsCanonicalOf shelf omnibus omnibus
unfolding merged_into_of find_by_id text_eq
omnibus-canonical = (0, (refl, refl))

pub shelf-Distinct : Distinct (ids shelf)
shelf-Distinct =
    (λ h. ground arith, (λ h. ground arith, (λ h. ground arith, (λ h. ground arith, tt))))

pub emma-found : find_by_id shelf emma ≡ ok (row emma none [])
unfolding find_by_id text_eq
emma-found = refl

pub persuasion-found : find_by_id shelf persuasion ≡ ok (row persuasion none [])
unfolding find_by_id text_eq
persuasion-found = refl

persuasion-canonical : IsCanonicalOf shelf persuasion persuasion
unfolding merged_into_of find_by_id text_eq
persuasion-canonical = (0, (refl, refl))

canonical_at :
    (a b r : Text)
    → text_eq b a ≡ true
    → IsCanonicalOf shelf b r
    → (s : Text) × IsCanonicalOf shelf a s
canonical_at a b r e p =
    (r, subst (λ (x : Text). IsCanonicalOf shelf x r) ((text_eq_iff b a).0 e) p)

pub shelf-IsGrounded : IsGrounded shelf
unfolding find_by_id
shelf-IsGrounded a w found = elim (Bool-cases (text_eq emma a)) [
  | inl e ↦ canonical_at a emma emma e emma-canonical
  | inr n1 ↦ elim (Bool-cases (text_eq emma2 a)) [
    | inl e ↦ canonical_at a emma2 emma e emma2-canonical
    | inr n2 ↦ elim (Bool-cases (text_eq omnibus a)) [
      | inl e ↦ canonical_at a omnibus omnibus e omnibus-canonical
      | inr n3 ↦ elim (Bool-cases (text_eq persuasion a)) [
        | inl e ↦ canonical_at a persuasion persuasion e persuasion-canonical
        | inr n4 ↦ cc (rw (n1, n2, n3, n4) at found)
      ]
    ]
  ]
]
