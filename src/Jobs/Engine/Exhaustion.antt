-- ===== src/Jobs/Engine/Exhaustion.antt =====
-- What becomes of a job whose handler always fails.
use alexandryn.Base.{
  ℕ, zero, suc, ◌+◌, ◌≤◌, ◌≡◌, refl, sym, ap, ◌∙◌, inl, inr, Bool, true, false, ◌||◌, none, some,
  List, [], ◌∷◌, arith, leb, if◌then◌else◌, Bool-cases, any, Text, text_eq, text_eq_refl,
}
use alexandryn.Jobs.State.{queued, retrying, dead_letter, state_eq, Job}
use alexandryn.Jobs.Store.{update_where, is_held, claimable, claim_row, claim_next, fail}
use alexandryn.Jobs.Store.Rows.{claim_cases}
use alexandryn.Jobs.Registry.{Registration, Registry, lookup, kinds}
use alexandryn.Jobs.Engine.{
  Pool, Execution, finish_failure, execute, Engine, Event, polling, ending, no_kinds, poll_once,
  step, steps,
}

-- The handler returns an error that is not permanent, and nothing else ends its execution.
abbrev failing : Text → Execution
failing cause = record {
  failure = some (false, cause);
  lease_lost = false;
  shut_down = false;
  job_cancelled = false;
}

abbrev unlocked : Text → Bool
unlocked id = false

-- The row waits for a worker at the instant.
pub record IsDue (j : Job) (now : ℕ) : Type 0 where
  pub waits : (state_eq j.state queued || state_eq j.state retrying) ≡ true
  pub due : j.available_at ≤ now

registered :
    (registry : Registry) (kind : Text) (r : Registration)
    → lookup registry kind ≡ some r
    → (no_kinds registry ≡ false) × (any (λ x. text_eq x kind) (kinds registry) ≡ true)
unfolding lookup kinds any
registered [] kind r h = cc h
registered (x ∷ registry) kind r h = elim (Bool-cases (text_eq x.kind kind)) [
  | inl y ↦ (refl, rw y refl)
  | inr n ↦ (refl, ground (arith, registered registry kind r (rw (n, lookup) at h)))
]

claimable_due :
    (registry : Registry) (j : Job) (r : Registration) (now : ℕ)
    → lookup registry j.kind ≡ some r
    → IsDue j now
    → claimable (kinds registry) now j ≡ true
unfolding claimable
claimable_due [] j r now known due = unfold lookup in cc known
claimable_due (x ∷ registry) j r now known due =
    let (_, named) = registered (x ∷ registry) j.kind r known in
    let early : leb j.available_at now ≡ true = ground (arith, due.due) in
    unfold kinds in rw (due.waits, early, named) refl

module _ (pool : Pool) (token : ℕ → Text) (worker cause : Text) where
  -- The row after one claim and one failure at an instant.
  abbrev failed_once : ℕ → ℕ → Job → Job
  failed_once used now j =
      let spent = leb j.max_attempts (j.attempts + 1) in
      record (claim_row pool.lease_duration (token used) worker now j) {
        state = if spent then dead_letter else retrying;
        available_at = if spent then now else now + pool.backoff_for (j.attempts + 1);
        last_error = some cause;
        locked_until = none;
        updated_at = now;
      }

  abbrev pub alone : Job → ℕ → Engine
  alone j used = record { table = j ∷ []; in_flight = []; used = used }

  -- A poll and the end of the execution, again and again, each when the backoff is over.
  unfoldable pub rounds : ℕ → ℕ → ℕ → List Event
  rounds attempts now zero = []
  rounds attempts now (suc k) =
      polling false unlocked worker now
      ∷ ending 0 (failing cause) now
      ∷ rounds (attempts + 1) (now + pool.backoff_for (attempts + 1)) k

  claimed :
      (j : Job) (r : Registration) (used now : ℕ)
      → lookup pool.registry j.kind ≡ some r
      → IsDue j now
      → claim_next
          (j ∷ [])
          unlocked
          pool.lease_duration
          (token used)
          worker
          (kinds pool.registry)
          now
        ≡ (
          claim_row pool.lease_duration (token used) worker now j ∷ [],
          some (claim_row pool.lease_duration (token used) worker now j),
        )
  unfolding update_where
  claimed j r used now known due =
      elim (claim_cases (j ∷ []) unlocked pool.lease_duration (token used) worker
        (kinds pool.registry) now) [
          | inl (_, (refused, _)) ↦
              let open_ = claimable_due pool.registry j r now known due in cc (rw open_ at refused)
          | inr (k, there, _, _, _, d) ↦ elim there [
            | inl same ↦ rw (d, ← same, text_eq_refl j.id) refl
            | inr absent ↦ absurd absent
          ]
        ]

  abbrev working : Job → ℕ → Engine
  working c used = record { table = c ∷ []; in_flight = c ∷ []; used = suc used }

  abbrev mine : Job → ℕ → ℕ → Job
  mine j used now = claim_row pool.lease_duration (token used) worker now j

  polled :
      (j : Job) (r : Registration) (used now : ℕ)
      → lookup pool.registry j.kind ≡ some r
      → IsDue j now
      → step pool token (alone j used) (polling false unlocked worker now)
        ≡ working (mine j used now) used
  unfolding step poll_once
  polled j r used now known due =
      let (some_kind, _) = registered pool.registry j.kind r known in
      rw (step, poll_once, some_kind, claimed j r used now known due) refl

  ended :
      (j : Job) (r : Registration) (used now : ℕ)
      → lookup pool.registry j.kind ≡ some r
      → r.max_attempts ≡ j.max_attempts
      → step pool token (working (mine j used now) used) (ending 0 (failing cause) now)
        ≡ alone (failed_once used now j) (suc used)
  unfolding step execute finish_failure fail update_where is_held state_eq
  ended j r used now known budget =
      rw
        (
          step,
          execute,
          known,
          budget,
          finish_failure,
          fail,
          update_where,
          is_held,
          text_eq_refl j.id,
          text_eq_refl (token used),
        )
        refl

  -- A poll, the handler's failure, and the row as it is left.
  round :
      (j : Job) (r : Registration) (used now : ℕ)
      → lookup pool.registry j.kind ≡ some r
      → r.max_attempts ≡ j.max_attempts
      → IsDue j now
      → step pool token
          (step pool token (alone j used) (polling false unlocked worker now))
          (ending 0 (failing cause) now)
        ≡ alone (failed_once used now j) (suc used)
  round j r used now known budget due =
      ap (λ e. step pool token e (ending 0 (failing cause) now)) (polled j r used now known due)
      ∙ ended j r used now known budget

  -- A job whose handler fails every time, for no permanent reason, is dead-lettered once a worker has
  -- executed it as often as its budget still allows, each time when its backoff is over: the pool neither
  -- gives up before nor goes on after. It is the only row, and its kind is registered with its budget.
  pub steps-dead_letter :
      (k : ℕ) (j : Job) (r : Registration) (used now : ℕ)
      → lookup pool.registry j.kind ≡ some r
      → r.max_attempts ≡ j.max_attempts
      → IsDue j now
      → j.attempts + suc k ≡ j.max_attempts
      → (dead : Job) × (steps pool token (alone j used) (rounds j.attempts now (suc k))
          ≡ alone dead (used + suc k))
        × (dead.id ≡ j.id)
        × (dead.state ≡ dead_letter)
        × (dead.attempts ≡ j.max_attempts)
        × (dead.last_error ≡ some cause)
  unfolding steps rounds state_eq
  steps-dead_letter zero j r used now known budget due left =
      let spent : leb j.max_attempts (j.attempts + 1) ≡ true = ground arith in
      let counted : used + 1 ≡ suc used = omega arith in
      (
        failed_once used now j,
        round j r used now known budget due ∙ ap (alone (failed_once used now j)) (sym counted),
        refl,
        rw spent refl,
        omega arith,
        refl,
      )
  steps-dead_letter (suc k) j r used now known budget due left =
      let spent : leb j.max_attempts (j.attempts + 1) ≡ false = ground arith in
      let once = failed_once used now j in
      let later = now + pool.backoff_for (j.attempts + 1) in
      let again : IsDue once later = rw spent (record { waits = refl; due = omega arith }) in
      let (dead, run, id, state, attempts, failure) =
        steps-dead_letter k once r (suc used) later known budget again (omega arith) in
      let counted : suc used + suc k ≡ used + suc (suc k) = omega arith in
      (
        dead,
        ap (λ e. steps pool token e (rounds once.attempts later (suc k)))
              (round j r used now known budget due)
            ∙ run
            ∙ ap (alone dead) counted,
        id,
        state,
        attempts,
        failure,
      )
