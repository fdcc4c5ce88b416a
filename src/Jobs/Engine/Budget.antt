-- ===== src/Jobs/Engine/Budget.antt =====
-- The attempt budget under every interleaving of the workers, the reaper and the queue's users.
use alexandryn.Base.{
  ℕ, ◌≤◌, ◌<◌, ◌≡◌, refl, subst, inl, inr, true, ◌||◌, Option, some, List, [], ◌∷◌, arith,
  Bool-cases, Option-cases, any, All, Text, text_eq,
}
use alexandryn.Jobs.State.{dead_letter, state_eq, is_terminal, Job}
use alexandryn.Jobs.Store.{
  update_where, is_held, heartbeat, update_progress, cancel_row, cancel_job, retry_job, enqueue,
  get_job, clear_completed,
}
use alexandryn.Jobs.Store.Rows.{
  settle, All-map, All-both, All-filter, All-append_one, All-Has, IsKeyed-filter,
  IsKeyed-append_one, cancel_cases, get_job-Has, Job-cases,
}
use alexandryn.Jobs.Registry.{Registration, Registry, lookup, queue_enqueue}
use alexandryn.Jobs.Engine.{
  Pool, Execution, token_of, execute, Engine, pick, Event, polling, ending, beating, reporting,
  reaping, enqueuing, cancelling, retrying_as, clearing, no_kinds, poll_once, step, steps,
}
use alexandryn.Jobs.Engine.Rows.{
  InBudget, Linked, IsSafeRow, IsNumbered, IsSafe, pick-All, held, by_id, not_held, kept,
  execute_safe,
}
use alexandryn.Jobs.Engine.Claims.{claims}
use alexandryn.Jobs.Engine.Tally.{claims-attempts}
use alexandryn.Jobs.Engine.Leases.{poll-Safe, reap-Safe}

-- No jobs, and no worker at one.
abbrev pub idle_engine : Engine
idle_engine = record { table = []; in_flight = []; used = 0 }

-- Every registered kind has an attempt, as Register demands.
abbrev IsBudgeted : Registry → Type 0
IsBudgeted [] = Unit
IsBudgeted (r ∷ registry) = (0 < r.max_attempts) × IsBudgeted registry

lookup-positive :
    (registry : Registry) (kind : Text) (r : Registration)
    → IsBudgeted registry
    → lookup registry kind ≡ some r
    → 0 < r.max_attempts
unfolding lookup
lookup-positive [] kind r b h = cc h
lookup-positive (x ∷ registry) kind r (p, ps) h = elim (Bool-cases (text_eq x.kind kind)) [
  | inl t ↦
      let same : x ≡ r = ground arith in subst (λ (y : Registration). 0 < y.max_attempts) same p
  | inr n ↦ lookup-positive registry kind r ps (rw (n, lookup) at h)
]

module _ (pool : Pool) (token : ℕ → Text)
    (fresh : (m n : ℕ) → text_eq (token m) (token n) ≡ true → m ≡ n) where
  abbrev Safe : Engine → Type 0
  Safe = IsSafe pool token

  abbrev Row : ℕ → List Job → Job → Type 0
  Row = IsSafeRow pool token

  end-Safe :
      (e : Engine) (n : ℕ) (run : Execution) (now : ℕ) (f : Job) (rest : List Job)
      → pick n e.in_flight ≡ some (f, rest)
      → Safe e
      → Safe (record { table = execute pool e.table f run now; in_flight = rest; used = e.used })
  end-Safe e n run now f rest p s =
      let (keyed, rows) = execute_safe pool token e.used now f rest run e.table (
        s.keyed,
        All-map (Row e.used e.in_flight) (Row e.used (f ∷ rest))
            (λ j (b, m, l). (b, m, pick-All (λ g. Linked pool token g j) n e.in_flight f rest p l))
            e.table s.rows,
      ) in
      record {
        keyed = keyed;
        rows =
            All-map (Row e.used (f ∷ rest)) (Row e.used rest) (λ j (b, m, l). (b, m, l.1)) _ rows;
        flights = (pick-All (IsNumbered pool token e.used) n e.in_flight f rest p s.flights).1;
      }

  held-Safe :
      (e : Engine) (id tok : Text) (change : Job → Job)
      → ((j : Job) → (change j).id ≡ j.id)
      → ((j : Job) → Row e.used e.in_flight j → Row e.used e.in_flight (change j))
      → Safe e
      → Safe (record e { table = update_where (is_held id tok) change e.table })
  held-Safe e id tok change named step s =
      let (keyed, rows) =
        held pool token e.used e.in_flight id tok change e.table named (λ j t r. step j r)
          (s.keyed, s.rows) in
      record { keyed = keyed; rows = rows; flights = s.flights }

  -- A new row under a new id.
  fresh_row-Safe :
      (e : Engine) (id kind payload : Text) (max now : ℕ)
      → 0 < max
      → ((r : Registration) → lookup pool.registry kind ≡ some r → r.max_attempts ≡ max)
      → Safe e
      → Safe (record e { table = settle e.table (enqueue e.table id kind payload max now now) })
  fresh_row-Safe e id kind payload max now p named s =
      elim (Bool-cases (any (λ j. text_eq j.id id) e.table)) [
        | inl t ↦ unfold enqueue in rw (t, enqueue) s
        | inr n ↦
            unfold enqueue in
            rw (n, enqueue)
              (record {
                keyed = IsKeyed-append_one e.table _ n s.keyed;
                rows = All-append_one (Row e.used e.in_flight) e.table _ s.rows (
                  record { positive = p; registered = named; within = omega arith; left = λ w. p },
                  inl refl,
                  not_held pool token _ e.in_flight (λ h. cc h),
                );
                flights = s.flights;
              })
      ]

  queue-Safe :
      (e : Engine) (kind : Text) (payload : Option Text) (id : Text) (now : ℕ)
      → IsBudgeted pool.registry
      → Safe e
      → Safe (record e {
        table = settle e.table (queue_enqueue e.table pool.registry kind payload id now);
      })
  queue-Safe e kind payload id now b s = elim (Option-cases (lookup pool.registry kind)) [
    | inl none_there ↦ unfold queue_enqueue in rw (none_there, queue_enqueue) s
    | inr (r, found) ↦ elim (Option-cases payload) [
      | inl bad ↦ unfold queue_enqueue in rw (found, bad, queue_enqueue) s
      | inr (raw, good) ↦
          unfold queue_enqueue in
          rw (found, good, queue_enqueue)
            (fresh_row-Safe e id kind raw r.max_attempts now
              (lookup-positive pool.registry kind r b found)
              (λ x other. ground (arith, found, other)) s)
    ]
  ]

  retry-Safe :
      (e : Engine) (id new_id : Text) (now : ℕ)
      → Safe e
      → Safe (record e { table = settle e.table (retry_job e.table id new_id now) })
  retry-Safe e id new_id now s = elim (Job-cases (get_job e.table id)) [
    | inr (x, f) ↦ unfold retry_job in rw (f, retry_job) s
    | inl (j, f) ↦
        let (b, _, _) =
          All-Has (Row e.used e.in_flight) j e.table s.rows (get_job-Has e.table id j f).0 in
        elim (Bool-cases (state_eq j.state dead_letter)) [
          | inl t ↦
              unfold retry_job in
              rw (f, t, retry_job)
                (fresh_row-Safe e new_id j.kind j.payload j.max_attempts now b.positive b.registered
                  s)
          | inr n ↦ unfold retry_job in rw (f, n, retry_job) s
        ]
  ]

  cancel-Safe :
      (e : Engine) (id : Text) (now : ℕ)
      → Safe e
      → Safe (record e { table = settle e.table (cancel_job e.table id now) })
  cancel-Safe e id now s = elim (cancel_cases e.table id now) [
    | inl c ↦ rw c s
    | inr (j, there, _, d) ↦
        let (keyed, rows) =
          by_id pool token e.used e.used e.in_flight e.in_flight j (cancel_row now) e.table
            (λ k. refl) there
            (λ r.
              kept pool token e.used e.in_flight j (cancel_row now j) refl refl refl refl refl
                (inr (unfold is_terminal in refl)) r)
            (λ k r. r) (s.keyed, s.rows) in
        rw d (record { keyed = keyed; rows = rows; flights = s.flights })
  ]

  clear-Safe :
      (e : Engine) (older : ℕ)
      → Safe e
      → Safe (record e { table = (clear_completed e.table older).0 })
  unfolding clear_completed
  clear-Safe e older s = record {
    keyed = IsKeyed-filter _ e.table s.keyed;
    rows = All-filter (Row e.used e.in_flight) _ e.table s.rows;
    flights = s.flights;
  }

  step-Safe :
      (e : Engine) (v : Event) → IsBudgeted pool.registry → Safe e → Safe (step pool token e v)
  unfolding step heartbeat update_progress poll_once
  step-Safe e (polling paused locked worker now) b s =
      elim (Bool-cases (paused || no_kinds pool.registry)) [
        | inl idle ↦ rw idle s
        | inr works ↦ rw works (poll-Safe pool token fresh e locked worker now s)
      ]
  step-Safe e (ending n run now) b s = elim (Option-cases (pick n e.in_flight)) [
    | inl gone ↦ rw (gone, step) s
    | inr ((f, rest), p) ↦ rw (p, step) (end-Safe e n run now f rest p s)
  ]
  step-Safe e (beating j now) b s =
      held-Safe e j.id (token_of j) _ (λ k. refl)
        (λ k r. kept pool token e.used e.in_flight k _ refl refl refl refl refl (inl refl) r) s
  step-Safe e (reporting j current total now) b s =
      held-Safe e j.id (token_of j) _ (λ k. refl)
        (λ k r. kept pool token e.used e.in_flight k _ refl refl refl refl refl (inl refl) r) s
  step-Safe e (reaping locked id now) b s = reap-Safe pool token fresh e locked id now s
  step-Safe e (enqueuing kind payload id now) b s = queue-Safe e kind payload id now b s
  step-Safe e (cancelling id now) b s = cancel-Safe e id now s
  step-Safe e (retrying_as id new_id now) b s = retry-Safe e id new_id now s
  step-Safe e (clearing older) b s = clear-Safe e older s

  steps-Safe :
      (e : Engine) (vs : List Event)
      → IsBudgeted pool.registry
      → Safe e
      → Safe (steps pool token e vs)
  unfolding steps
  steps-Safe e [] b s = s
  steps-Safe e (v ∷ vs) b s = steps-Safe (step pool token e v) vs b (step-Safe e v b s)

  -- From an empty table and idle workers, whatever the workers, the reaper, the heartbeats and the
  -- queue's users do and in whatever order, leases lost and claims repeated, each row of the table keeps
  -- the budget registered for its kind, and has an attempt left while it waits; its attempts are exactly
  -- the times that a poll handed its job out, so no job is claimed more often than its budget.
  -- Lease tokens are taken to be distinct, and budgets positive as Register demands. A job whose row is
  -- cleared away is over, and a later row under its id is counted from none.
  pub steps-InBudget :
      (vs : List Event)
      → IsBudgeted pool.registry
      → All
          (λ j.
            InBudget pool token j
            × (claims pool token j.id idle_engine vs 0 ≡ j.attempts)
            × (claims pool token j.id idle_engine vs 0 ≤ j.max_attempts))
          (steps pool token idle_engine vs).table
  steps-InBudget vs b =
      let s = steps-Safe idle_engine vs b (record { keyed = tt; rows = tt; flights = tt }) in
      let table = (steps pool token idle_engine vs).table in
      All-map (λ j. Row _ _ j × (claims pool token j.id idle_engine vs 0 ≡ j.attempts)) _
        (λ j (r, same). (r.0, same, rw same r.0.within)) table
        (All-both (Row _ _) _ table s.rows (claims-attempts pool token idle_engine vs refl))
