-- ===== src/Jobs/Engine/Samples.antt =====
-- The budget in a run of a pool of two workers.
use alexandryn.Base.{
  ℕ, ◌≤◌, ◌*◌, ◌≡◌, refl, Bool, true, false, none, some, List, [], ◌∷◌, arith, All, Text, lit,
  text_eq,
}
use alexandryn.Jobs.State.{queued, dead_letter, state_eq, Job}
use alexandryn.Jobs.Registry.{Registry, lookup}
use alexandryn.Jobs.Engine.Exhaustion.{alone, rounds, steps-dead_letter}
use alexandryn.Jobs.Engine.{Pool, Execution, Event, polling, ending, reaping, enqueuing, steps}
use alexandryn.Jobs.Engine.Rows.{InBudget}
use alexandryn.Jobs.Engine.Budget.{idle_engine, steps-InBudget}
use alexandryn.Jobs.Engine.Claims.{claims}

abbrev two_kinds : Registry
two_kinds =
    record { kind = lit "scan"; max_attempts = 2 }
    ∷ record { kind = lit "import"; max_attempts = 1 }
    ∷ []

abbrev small_pool : Pool
small_pool = record { registry = two_kinds; lease_duration = 50; backoff_for = λ n. 10 * n }

-- The n-th id that the generator gives out.
abbrev nth_token : ℕ → Text
nth_token n = n ∷ []

nth_token-fresh : (m n : ℕ) → text_eq (nth_token m) (nth_token n) ≡ true → m ≡ n
unfolding text_eq
nth_token-fresh m n h = ground arith

abbrev unlocked : Text → Bool
unlocked id = false

abbrev handler_failed : Execution
handler_failed = record {
  failure = some (false, lit "timeout");
  lease_lost = false;
  shut_down = false;
  job_cancelled = false;
}

abbrev busy_day : List Event
busy_day =
    enqueuing (lit "scan") (some (lit "{}")) (lit "j1") 10
    ∷ polling false unlocked (lit "w1") 20
    ∷ reaping unlocked (lit "j1") 100
    ∷ polling false unlocked (lit "w2") 200
    ∷ ending 1 handler_failed 210
    ∷ ending 0 handler_failed 220
    ∷ []

steps-InBudget_example :
    All
      (λ j.
        InBudget small_pool nth_token j
        × (claims small_pool nth_token j.id idle_engine busy_day 0 ≡ j.attempts)
        × (claims small_pool nth_token j.id idle_engine busy_day 0 ≤ j.max_attempts))
      (steps small_pool nth_token idle_engine busy_day).table
steps-InBudget_example =
    steps-InBudget small_pool nth_token nth_token-fresh busy_day (omega arith, (omega arith, tt))

-- A scan that waits for its first claim.
abbrev flaky : Job
flaky = record {
  id = lit "j1";
  kind = lit "scan";
  payload = lit "{}";
  state = queued;
  attempts = 0;
  max_attempts = 2;
  available_at = 15;
  locked_until = none;
  lease_token = none;
  locked_by = none;
  last_error = none;
  progress = none;
  created_at = 10;
  updated_at = 10;
  completed_at = none;
}

steps-dead_letter_example :
    (dead : Job) × (steps small_pool nth_token
        (alone small_pool nth_token (lit "w1") (lit "timeout") flaky 0)
        (rounds small_pool nth_token (lit "w1") (lit "timeout") 0 20 2)
      ≡ alone small_pool nth_token (lit "w1") (lit "timeout") dead 2)
    × (dead.id ≡ lit "j1")
    × (dead.state ≡ dead_letter)
    × (dead.attempts ≡ 2)
    × (dead.last_error ≡ some (lit "timeout"))
steps-dead_letter_example =
    steps-dead_letter small_pool nth_token (lit "w1") (lit "timeout") 1 flaky
      (record { kind = lit "scan"; max_attempts = 2 }) 0 20
      (unfold lookup in unfold text_eq in refl) refl
      (record { waits = unfold state_eq in refl; due = omega arith }) refl
