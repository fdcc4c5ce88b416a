-- ===== src/Jobs/Engine.antt =====
-- internal/jobs/engine.go: what a worker does with one job, and the pool as the sequence of its
-- workers' and its reaper's steps on the shared table. The goroutines are the interleaving: between a
-- claim and the end of its execution any other steps may stand. A write that fails for the database's
-- sake leaves the table, as a step that is not taken.
pub mod Rows
pub mod Claims
mod Tally
mod Leases
pub mod Budget
pub mod Exhaustion
mod Samples
use alexandryn.Base.{
  ℕ, zero, suc, ◌+◌, Bool, true, false, ◌||◌, Option, none, some, List, [], ◌∷◌, leb, if◌then◌else◌,
  ℤ, Text, lit,
}
use alexandryn.Jobs.State.{Job}
use alexandryn.Jobs.Store.{
  Table, claim_next, heartbeat, complete, fail, update_progress, reclaim_one, cancel_job, retry_job,
  clear_completed,
}
use alexandryn.Jobs.Store.Rows.{settle}
use alexandryn.Jobs.Registry.{Registry, lookup, kinds, queue_enqueue}

-- What the pool is built from; `backoff_for` is Backoff.For with its jitter.
pub record Pool : Type 0 where
  pub registry : Registry
  pub lease_duration : ℕ
  pub backoff_for : ℕ → ℕ

-- How an execution ended: the handler's error, whether IsPermanent holds of it and its text (a panic
-- is an error that is not permanent), and the three reasons to write nothing.
pub record Execution : Type 0 where
  pub failure : Option (Bool × Text)
  pub lease_lost : Bool
  pub shut_down : Bool
  pub job_cancelled : Bool

abbrev pub token_of : Job → Text
token_of j = elim j.lease_token [ none ↦ [] | some t ↦ t ]

unfoldable pub finish_success : Table → Job → ℕ → Table
finish_success table job now = (complete table job.id (token_of job) now).0

unfoldable pub finish_failure : Pool → Table → Job → Text → Bool → ℕ → Table
finish_failure pool table job cause dead now =
    (fail table job.id (token_of job) now
      (if dead then now else now + pool.backoff_for job.attempts) dead cause).0

-- execute, from the lookup and then from the handler's return on.
unfoldable pub execute : Pool → Table → Job → Execution → ℕ → Table
unfolding finish_success finish_failure lookup
execute pool table job e now = elim (lookup pool.registry job.kind) [
  | none ↦ finish_failure pool table job (lit "no handler registered") true now
  | some r ↦ if e.lease_lost || (e.shut_down || e.job_cancelled) then table else elim e.failure [
    | none ↦ finish_success table job now
    | some (permanent, cause) ↦
        finish_failure pool table job cause (permanent || leb r.max_attempts job.attempts) now
  ]
]

-- The table, the jobs that workers are executing, as they were claimed, and how many tokens the id
-- generator has given out.
pub record Engine : Type 0 where
  pub table : Table
  pub in_flight : List Job
  pub used : ℕ

abbrev pub no_kinds : Registry → Bool
no_kinds [] = true
no_kinds (r ∷ registry) = false

abbrev pub add_claimed : Engine → Table × Option Job → Engine
add_claimed e (table, none) = record { table = table; in_flight = e.in_flight; used = suc e.used }
add_claimed e (table, some j) = record {
  table = table;
  in_flight = j ∷ e.in_flight;
  used = suc e.used;
}

-- The n-th execution, and the others.
abbrev pub pick : ℕ → List Job → Option (Job × List Job)
pick n [] = none
pick zero (j ∷ js) = some (j, js)
pick (suc n) (j ∷ js) = elim (pick n js) [ none ↦ none | some (k, rest) ↦ some (k, j ∷ rest) ]

-- One step of the pool, of the queue that others use, or of a worker's heartbeat.
pub data Event : Type 0 where
  polling : Bool → (Text → Bool) → Text → ℕ → Event
  ending : ℕ → Execution → ℕ → Event
  beating : Job → ℕ → Event
  reporting : Job → ℤ → ℤ → ℕ → Event
  reaping : (Text → Bool) → Text → ℕ → Event
  enqueuing : Text → Option Text → Text → ℕ → Event
  cancelling : Text → ℕ → Event
  retrying_as : Text → Text → ℕ → Event
  clearing : ℕ → Event

module _ (pool : Pool) (token : ℕ → Text) where
  -- pollOnce, and poller's guard on a registry without handlers. `paused` is the engine's flag.
  unfoldable pub poll_once : Engine → Bool → (Text → Bool) → Text → ℕ → Engine
  poll_once e paused locked worker now =
      if paused || no_kinds pool.registry
      then e
      else add_claimed e (
          claim_next e.table locked pool.lease_duration (token e.used) worker (kinds pool.registry)
            now)

  unfoldable pub step : Engine → Event → Engine
  unfolding poll_once execute
  step e (polling paused locked worker now) = poll_once e paused locked worker now
  step e (ending n run now) = elim (pick n e.in_flight) [
    | none ↦ e
    | some (j, rest) ↦ record {
      table = execute pool e.table j run now;
      in_flight = rest;
      used = e.used;
    }
  ]
  step e (beating j now) = record e {
    table = (heartbeat e.table pool.lease_duration j.id (token_of j) now).0;
  }
  step e (reporting j current total now) = record e {
    table = update_progress e.table j.id (token_of j) current total now;
  }
  step e (reaping locked id now) = record e {
    table = (reclaim_one e.table locked (token e.used) id now pool.backoff_for).0;
    used = suc e.used;
  }
  step e (enqueuing kind payload id now) = record e {
    table = settle e.table (queue_enqueue e.table pool.registry kind payload id now);
  }
  step e (cancelling id now) = record e { table = settle e.table (cancel_job e.table id now) }
  step e (retrying_as id new_id now) = record e {
    table = settle e.table (retry_job e.table id new_id now);
  }
  step e (clearing older_than) = record e { table = (clear_completed e.table older_than).0 }

  unfoldable pub steps : Engine → List Event → Engine
  unfolding step
  steps e [] = e
  steps e (s ∷ ss) = steps (step e s) ss
