-- ===== src/Jobs/Engine/Claims.antt =====
-- The claims of one job in a run of the pool, counted from what ClaimNext returned to the workers.
use alexandryn.Base.{
  ℕ, ◌+◌, Bool, ◌||◌, Option, none, some, List, [], ◌∷◌, if◌then◌else◌, any, Text, text_eq,
}
use alexandryn.Jobs.State.{Job}
use alexandryn.Jobs.Store.{Table, claim_next}
use alexandryn.Jobs.Registry.{kinds}
use alexandryn.Jobs.Engine.{
  Pool, Engine, Event, polling, ending, beating, reporting, reaping, enqueuing, cancelling,
  retrying_as, clearing, no_kinds, step,
}

abbrev pub has_row : Text → Table → Bool
has_row id table = any (λ j. text_eq j.id id) table

-- One, if the job that was returned has the id.
abbrev pub is_claim : Text → Option Job → ℕ
is_claim id none = 0
is_claim id (some j) = if text_eq j.id id then 1 else 0

module _ (pool : Pool) (token : ℕ → Text) where
  -- How many workers are given the job in one step: only a poll hands jobs out.
  unfoldable pub claims_in : Text → Engine → Event → ℕ
  claims_in id e (polling paused locked worker now) =
      if paused || no_kinds pool.registry
      then 0
      else is_claim id
          (claim_next e.table locked pool.lease_duration (token e.used) worker (kinds pool.registry)
            now).1
  claims_in id e (ending n run now) = 0
  claims_in id e (beating j now) = 0
  claims_in id e (reporting j current total now) = 0
  claims_in id e (reaping locked fresh now) = 0
  claims_in id e (enqueuing kind payload fresh now) = 0
  claims_in id e (cancelling other now) = 0
  claims_in id e (retrying_as other fresh now) = 0
  claims_in id e (clearing older) = 0

  -- How often the job was handed out in a run, `n` times before it. A job whose row is gone is over: a
  -- later row under its id is another job, which starts from none.
  unfoldable pub claims : Text → Engine → List Event → ℕ → ℕ
  unfolding claims_in step
  claims id e [] n = n
  claims id e (v ∷ vs) n =
      claims id (step pool token e v) vs
        (if has_row id (step pool token e v).table then n + claims_in id e v else 0)
