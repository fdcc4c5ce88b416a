-- ===== src/Progress.antt =====
-- Reading progress: internal/domain/percentage.go, reading_progress.go and reconcile_progress.go.
-- A float64 is a value of an abstract type with the comparisons of IEEE 754; an epoch is an int64.
mod Reconcile
mod Samples
use alexandryn.Base.{
  ℕ, ◌≡◌, ◌⊎◌, Bool, true, false, ◌||◌, Option, none, List, [], ◌∷◌, if◌then◌else◌, ℤ, pos, ltb_ℤ,
  int64_suc, Text, invalid_input, error, Result, ok, err,
}

-- The comparisons of float64: `<` and `==`, which no NaN satisfies. Two floats may be `==` without
-- being the same value, as 0 and -0 are.
pub record Float : Type 1 where
  pub F : Type 0
  pub lt : F → F → Bool
  pub eq : F → F → Bool
  pub zero : F
  pub one : F
  pub is_nan : F → Bool
  pub lt_irrefl : (a : F) → lt a a ≡ false
  pub lt_trans : (a b c : F) → lt a b ≡ true → lt b c ≡ true → lt a c ≡ true
  pub eq_lt : (a b c : F) → eq a b ≡ true → lt b c ≡ true → lt a c ≡ true
  pub lt_eq : (a b c : F) → lt a b ≡ true → eq b c ≡ true → lt a c ≡ true
  pub eq_sym : (a b : F) → eq a b ≡ true → eq b a ≡ true
  pub eq_refl : (a : F) → is_nan a ≡ false → eq a a ≡ true
  pub compare_total :
      (a b : F)
      → is_nan a ≡ false
      → is_nan b ≡ false
      → (lt a b ≡ true) ⊎ ((eq a b ≡ true) ⊎ (lt b a ≡ true))
  pub nan_lt : (a b : F) → is_nan a ≡ true → (lt a b ≡ false) × (lt b a ≡ false)

pub data ReadingStatus : Type 0 where
  not_started in_progress finished : ReadingStatus

pub record PrecisePosition : Type 0 where
  pub edition_id : Text
  pub value : Text

pub record ReadingProgress (F : Type 0) : Type 0 where
  pub id : Text
  pub work_id : Text
  pub percentage : F
  pub epoch : ℤ
  pub precise_position : Option PrecisePosition
  pub device_id : Text
  pub observed_at : ℕ

pub record ProgressReport (F : Type 0) : Type 0 where
  pub work_id : Text
  pub percentage : F
  pub observed_epoch : ℤ
  pub precise_position : Option PrecisePosition
  pub device_id : Text
  pub reported_at : ℕ

pub data ReconcileOutcome : Type 0 where
  advanced unchanged rejected : ReconcileOutcome

module _ (fl : Float) where
  open fl use {F, lt, eq}

  pub new_percentage : F → Result F
  new_percentage value =
      if lt value fl.zero || lt fl.one value then err (error invalid_input) else ok value

  status : F → ReadingStatus
  status p = if eq p fl.zero then not_started else if eq p fl.one then finished else in_progress

  new_reading_progress : Text → Text → F → Text → ℕ → ReadingProgress F
  new_reading_progress id work_id percentage device_id observed_at = record {
    id = id;
    work_id = work_id;
    percentage = percentage;
    epoch = pos 0;
    precise_position = none;
    device_id = device_id;
    observed_at = observed_at;
  }

  -- What an accepted report makes of the canonical value.
  abbrev pub advance : ReadingProgress F → ProgressReport F → ReadingProgress F
  advance canonical report = record {
    id = canonical.id;
    work_id = canonical.work_id;
    percentage = report.percentage;
    epoch = canonical.epoch;
    precise_position = report.precise_position;
    device_id = report.device_id;
    observed_at = report.reported_at;
  }

  -- ReconcileResult, as the pair of its fields
  pub reconcile_progress :
      ReadingProgress F → ProgressReport F → ReadingProgress F × ReconcileOutcome
  reconcile_progress canonical report =
      if ltb_ℤ report.observed_epoch canonical.epoch
      then (canonical, rejected)
      else if lt canonical.percentage report.percentage
      then (advance canonical report, advanced)
      else if eq report.percentage canonical.percentage
      then (canonical, unchanged)
      else (canonical, rejected)

  first_progress : Text → ProgressReport F → ReadingProgress F
  first_progress id report = record {
    id = id;
    work_id = report.work_id;
    percentage = report.percentage;
    epoch = pos 0;
    precise_position = report.precise_position;
    device_id = report.device_id;
    observed_at = report.reported_at;
  }

  pub override_progress :
      ReadingProgress F → F → Option PrecisePosition → Text → ℕ → ReadingProgress F
  override_progress canonical target position device_id at = record {
    id = canonical.id;
    work_id = canonical.work_id;
    percentage = target;
    epoch = int64_suc canonical.epoch;
    precise_position = position;
    device_id = device_id;
    observed_at = at;
  }

  -- Folding the reports of several devices in the order in which they arrive.
  pub fold_reports : ReadingProgress F → List (ProgressReport F) → ReadingProgress F
  unfolding reconcile_progress
  fold_reports canonical [] = canonical
  fold_reports canonical (r ∷ reports) = fold_reports (reconcile_progress canonical r).0 reports
