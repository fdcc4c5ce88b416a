-- ===== src/Progress/Samples.antt =====
-- Reports on concrete percentages: hundredths, and one value for NaN.
use alexandryn.Base.{
  ℕ, ◌≡◌, refl, ◌↔◌, ◌⊎◌, inl, inr, Bool, true, false, Option, none, some, [], ◌∷◌, arith, ltb,
  ◌==◌, ℤ, pos, Text, lit,
}
use alexandryn.Progress.{
  Float, ReadingProgress, ProgressReport, rejected, reconcile_progress, advance, override_progress,
  fold_reports,
}
use alexandryn.Progress.Reconcile.{
  HasReport, fold_reports_order, fold_reports_first, override_progress-rejects,
}

abbrev lt_part : Option ℕ → Option ℕ → Bool
lt_part (some a) (some b) = ltb a b
lt_part (some a) none = false
lt_part none b = false

abbrev eq_part : Option ℕ → Option ℕ → Bool
eq_part (some a) (some b) = a == b
eq_part (some a) none = false
eq_part none b = false

abbrev no_part : Option ℕ → Bool
no_part none = true
no_part (some a) = false

part_irrefl : (a : Option ℕ) → lt_part a a ≡ false
part_irrefl none = refl
part_irrefl (some a) = ground arith

part_trans : (a b c : Option ℕ) → lt_part a b ≡ true → lt_part b c ≡ true → lt_part a c ≡ true
part_trans a b c h k = ground arith

part_eq_lt : (a b c : Option ℕ) → eq_part a b ≡ true → lt_part b c ≡ true → lt_part a c ≡ true
part_eq_lt a b c h k = ground arith

part_lt_eq : (a b c : Option ℕ) → lt_part a b ≡ true → eq_part b c ≡ true → lt_part a c ≡ true
part_lt_eq a b c h k = ground arith

part_eq_sym : (a b : Option ℕ) → eq_part a b ≡ true → eq_part b a ≡ true
part_eq_sym a b h = ground arith

part_eq_refl : (a : Option ℕ) → no_part a ≡ false → eq_part a a ≡ true
part_eq_refl a h = ground arith

part_total :
    (a b : Option ℕ)
    → no_part a ≡ false
    → no_part b ≡ false
    → (lt_part a b ≡ true) ⊎ ((eq_part a b ≡ true) ⊎ (lt_part b a ≡ true))
part_total a b h k = ground arith

part_nan : (a b : Option ℕ) → no_part a ≡ true → (lt_part a b ≡ false) × (lt_part b a ≡ false)
part_nan a b h = ground arith

abbrev parts : Float
parts = record {
  F = Option ℕ;
  lt = lt_part;
  eq = eq_part;
  zero = some 0;
  one = some 100;
  is_nan = no_part;
  lt_irrefl = part_irrefl;
  lt_trans = part_trans;
  eq_lt = part_eq_lt;
  lt_eq = part_lt_eq;
  eq_sym = part_eq_sym;
  eq_refl = part_eq_refl;
  compare_total = part_total;
  nan_lt = part_nan;
}

abbrev halfway : ReadingProgress (Option ℕ)
halfway = record {
  id = lit "p1";
  work_id = lit "emma";
  percentage = some 50;
  epoch = pos 2;
  precise_position = none;
  device_id = lit "tv";
  observed_at = 100;
}

-- A report of `percentage`, made at epoch `epoch` by `device_id`.
abbrev report : ℕ → ℤ → Text → ProgressReport (Option ℕ)
report percentage epoch device_id = record {
  work_id = lit "emma";
  percentage = some percentage;
  observed_epoch = epoch;
  precise_position = none;
  device_id = device_id;
  reported_at = 200;
}

abbrev from_phone : ProgressReport (Option ℕ)
from_phone = report 70 (pos 2) (lit "phone")

abbrev from_tablet : ProgressReport (Option ℕ)
from_tablet = report 70 (pos 2) (lit "tablet")

fold_reports_order_example :
    let xs = from_phone ∷ from_tablet ∷ [] in
    let ys = from_tablet ∷ from_phone ∷ from_tablet ∷ [] in
    let d = fold_reports parts halfway xs in
    let e = fold_reports parts halfway ys in
    (eq_part d.percentage e.percentage ≡ true)
    × (d.epoch ≡ pos 2)
    × ((r : ProgressReport (Option ℕ)) → HasReport r xs → lt_part d.percentage r.percentage ≡ false)
    × ((d.percentage ≡ some 50)
        ⊎ ((r : ProgressReport (Option ℕ)) × HasReport r xs × (d.percentage ≡ r.percentage)))
fold_reports_order_example =
    fold_reports_order parts halfway (from_phone ∷ from_tablet ∷ [])
      (from_tablet ∷ from_phone ∷ from_tablet ∷ []) refl ((refl, refl), ((refl, refl), tt))
      ((refl, refl), ((refl, refl), ((refl, refl), tt))) same_reports
  where
    same_reports :
        (r : ProgressReport (Option ℕ))
        → HasReport r (from_phone ∷ from_tablet ∷ [])
          ↔ HasReport r (from_tablet ∷ from_phone ∷ from_tablet ∷ [])
    same_reports r = (
      λ h. elim h [ inl e ↦ inr (inl e) | inr k ↦ elim k [ inl e ↦ inl e | inr n ↦ absurd n ] ],
      λ h. elim h [ inl e ↦ inr (inl e) | inr k ↦ elim k [ inl e ↦ inl e | inr n ↦ inr n ] ],
    )

fold_reports_first_example :
    (fold_reports parts halfway (from_phone ∷ from_tablet ∷ []) ≡ advance parts halfway from_phone)
    × (fold_reports parts halfway (from_tablet ∷ from_phone ∷ [])
        ≡ advance parts halfway from_tablet)
fold_reports_first_example =
    fold_reports_first parts halfway from_phone from_tablet (refl, refl) (refl, refl) refl refl refl

override_progress-rejects_run :
    reconcile_progress parts
      (override_progress parts halfway (some 10) none (lit "tv") 300)
      from_phone
    ≡ (override_progress parts halfway (some 10) none (lit "tv") 300, rejected)
override_progress-rejects_run =
    override_progress-rejects parts halfway (some 10) none (lit "tv") 300 from_phone (omega arith)
      refl
