-- ===== src/Base/Trim.antt =====
-- strings.TrimSpace and the test for a missing value.
use mathlib.Core.Path.{◌≡◌, refl, ap, sym, ◌∙◌}
use mathlib.Core.Logic.{inl, inr}
use mathlib.Core.Bool.{true, false}
use mathlib.Core.List.{[], ◌∷◌, reverse, reverse-reverse}
use native.Mathlib.Omega.{arith}
use alexandryn.Base.Tests.{Bool-cases}
use alexandryn.Base.Lists.{all, all-reverse}
use alexandryn.Base.Strings.{Text, is_space, trim_left, trim_space, is_empty, is_blank}

trim_left_solid : (s : Text) → all is_space (trim_left s) ≡ true → trim_left s ≡ []
unfolding trim_left all
trim_left_solid [] h = refl
trim_left_solid (r ∷ s) h = ground (arith, trim_left_solid s)

trim_left_blank : (s : Text) → trim_left s ≡ [] → all is_space s ≡ true
unfolding trim_left all
trim_left_blank [] h = refl
trim_left_blank (r ∷ s) h = ground (arith, trim_left_blank s)

empty_eq : (s : Text) → is_empty s ≡ true → s ≡ []
empty_eq [] h = refl
empty_eq (r ∷ s) h = cc

reverse_empty : (s : Text) → reverse s ≡ [] → s ≡ []
reverse_empty s h = sym (reverse-reverse s) ∙ ap reverse h

trim_space_nil : (s : Text) → trim_space s ≡ [] → all is_space s ≡ true
unfolding trim_space
trim_space_nil s h = trim_left_blank s (
    trim_left_solid s (
      rw (← reverse-reverse (trim_left s)) (
        all-reverse is_space (reverse (trim_left s)) (
          trim_left_blank (reverse (trim_left s))
            (reverse_empty (trim_left (reverse (trim_left s))) h)))))

trimmed_solid : (s : Text) → all is_space (trim_space s) ≡ true → trim_space s ≡ []
unfolding trim_space
trimmed_solid s h = ap reverse (
    trim_left_solid (reverse (trim_left s))
      (rw (← reverse-reverse (trim_left (reverse (trim_left s)))) (all-reverse is_space _ h)))

-- A label that is not empty once it is trimmed passes the test for a missing value.
pub is_blank-trim_space :
    (s : Text) → is_empty (trim_space s) ≡ false → is_blank (trim_space s) ≡ false
unfolding is_blank
is_blank-trim_space s h = elim (Bool-cases (is_empty (trim_space (trim_space s)))) [
  | inl blank ↦
      let gone : trim_space s ≡ [] =
        trimmed_solid s (trim_space_nil (trim_space s) (empty_eq _ blank)) in
      cc (ap is_empty gone)
  | inr full ↦ full
]
