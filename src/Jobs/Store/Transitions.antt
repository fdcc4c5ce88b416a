-- ===== src/Jobs/Store/Transitions.antt =====
-- How one statement may change a row, against CanTransitionTo of internal/jobs/job.go.
use alexandryn.Base.{
  ℕ, ◌+◌, ◌≡◌, refl, sym, subst, ◌≢◌, ◌⊎◌, inl, inr, Bool, true, false, List, [], ◌∷◌, arith,
  Bool-cases, filter, any, All, Text, text_eq,
}
use alexandryn.Jobs.State.{
  queued, running, dead_letter, state_eq, is_terminal, can_transition_to, Job,
}
use alexandryn.Jobs.Store.Rows.{
  Has, settle, Job-cases, cancel_cases, All-append_one, IsKeyed, All-map, only_row, claim_cases,
  reclaim_cases,
}
use alexandryn.Jobs.Store.{
  Table, update_where, is_held, get_job, claimable, claim_row, claim_next, enqueue, heartbeat,
  complete, fail, update_progress, is_stale, reclaim_row, reclaim_one, cancel_row, cancel_job,
  retry_job, clear_completed,
}
use alexandryn.Jobs.Store.Lifecycle.{
  Statement, enqueueing, claiming, beating, completing, failing, reporting, reclaiming, cancelling,
  retrying_as, clearing, apply,
}

-- `k` is what a statement may make of the row `j`. Beside CanTransitionTo there is the admin's
-- cancel, which moves any job that is not terminal to dead_letter. An attempt is counted exactly
-- by the claim.
pub record RowStep (j k : Job) : Type 0 where
  pub same_id : k.id ≡ j.id
  pub same_budget : k.max_attempts ≡ j.max_attempts
  pub lawful :
      (k.state ≡ j.state)
      ⊎ ((can_transition_to j.state k.state ≡ true)
          ⊎ ((is_terminal j.state ≡ false) × (k.state ≡ dead_letter)))
  pub counted :
      ((k.attempts ≡ j.attempts) × ((k.state ≡ running) → (j.state ≡ running)))
      ⊎ ((k.attempts ≡ j.attempts + 1) × (k.state ≡ running) × (j.state ≢ running))
  pub settled : is_terminal j.state ≡ true → k ≡ j

RowStep-refl : (j : Job) → RowStep j j
RowStep-refl j = record {
  same_id = refl;
  same_budget = refl;
  lawful = inl refl;
  counted = inl (refl, λ h. h);
  settled = λ h. refl;
}

abbrev Some : (Job → Type 0) → Table → Type 0
Some P [] = ⊥
Some P (j ∷ table) = P j ⊎ Some P table

-- The row comes from a row of the table before, or was enqueued by the statement.
abbrev pub Origin : Table → Job → Type 0
Origin table k =
    Some (λ j. RowStep j k) table
    ⊎ ((k.state ≡ queued) × (k.attempts ≡ 0) × (any (λ j. text_eq j.id k.id) table ≡ false))

abbrev From : Table → Job → Type 0
From table k = Some (λ j. RowStep j k) table

From-later : (j : Job) (table rest : Table) → All (From table) rest → All (From (j ∷ table)) rest
From-later j table rest h = All-map (From table) (From (j ∷ table)) (λ k f. inr f) rest h

From-refl : (table : Table) → All (From table) table
From-refl [] = tt
From-refl (j ∷ table) = (inl (RowStep-refl j), From-later j table table (From-refl table))

From-filter : (test : Job → Bool) (table : Table) → All (From table) (filter test table)
unfolding filter
From-filter test [] = tt
From-filter test (j ∷ table) = elim (Bool-cases (test j)) [
  | inl t ↦
      rw (t, filter)
        (inl (RowStep-refl j), From-later j table (filter test table) (From-filter test table))
  | inr n ↦ rw (n, filter) (From-later j table (filter test table) (From-filter test table))
]

From-update :
    (test : Job → Bool) (change : Job → Job) (table : Table)
    → All (λ j. test j ≡ true → RowStep j (change j)) table
    → All (From table) (update_where test change table)
unfolding update_where
From-update test change [] h = tt
From-update test change (j ∷ table) (s, ss) = elim (Bool-cases (test j)) [
  | inl t ↦
      rw (t, update_where) (inl (s t), From-later j table _ (From-update test change table ss))
  | inr n ↦
      rw (n, update_where)
        (inl (RowStep-refl j), From-later j table _ (From-update test change table ss))
]

From-held :
    (id token : Text) (change : Job → Job) (table : Table)
    → ((j : Job) → j.state ≡ running → RowStep j (change j))
    → All (From table) (update_where (is_held id token) change table)
From-held id token change table step = From-update (is_held id token) change table (each table)
  where
    each : (rows : Table) → All (λ j. is_held id token j ≡ true → RowStep j (change j)) rows
    each [] = tt
    each (j ∷ rows) = (λ h. step j (unfold is_held in ground arith), each rows)

-- An update by the id of a row that is there, where ids are unique.
From-row :
    (j : Job) (change : Job → Job) (table : Table)
    → IsKeyed table
    → Has j table
    → RowStep j (change j)
    → All (From table) (update_where (λ k. text_eq k.id j.id) change table)
From-row j change table keyed there step =
    From-update (λ k. text_eq k.id j.id) change table
      (All-map (λ k. text_eq k.id j.id ≡ true → k ≡ j)
        (λ k. text_eq k.id j.id ≡ true → RowStep k (change k))
        (λ k only t. subst (λ (x : Job). RowStep x (change x)) (sym (only t)) step) table
        (only_row j table keyed there))

From-Origin : (table rest : Table) → All (From table) rest → All (Origin table) rest
From-Origin table rest h = All-map (From table) (Origin table) (λ k f. inl f) rest h

claim_step :
    (kinds : List Text) (lease : ℕ) (token worker : Text) (now : ℕ) (j : Job)
    → claimable kinds now j ≡ true
    → RowStep j (claim_row lease token worker now j)
unfolding claimable can_transition_to is_terminal
claim_step kinds lease token worker now j h = ground arith

reclaim_step :
    (backoff_for : ℕ → ℕ) (token : Text) (now : ℕ) (j : Job)
    → is_stale now j ≡ true
    → RowStep j (reclaim_row backoff_for token now j)
unfolding is_stale can_transition_to is_terminal
reclaim_step backoff_for token now j h = ground arith

cancel_step : (now : ℕ) (j : Job) → is_terminal j.state ≡ false → RowStep j (cancel_row now j)
unfolding is_terminal
cancel_step now j h = ground arith

-- Each statement in turn.
claim_next-From :
    (table : Table) (locked : Text → Bool) (lease : ℕ) (token worker : Text) (kinds : List Text)
    (now : ℕ)
    → IsKeyed table
    → All (From table) (claim_next table locked lease token worker kinds now).0
claim_next-From table locked lease token worker kinds now keyed =
    elim (claim_cases table locked lease token worker kinds now) [
      | inl (e, _) ↦ rw e (From-refl table)
      | inr (j, there, c, _, _, e) ↦ rw e (
          From-row j (claim_row lease token worker now) table keyed there
            (claim_step kinds lease token worker now j c))
    ]

reclaim_one-From :
    (table : Table) (locked : Text → Bool) (token id : Text) (now : ℕ) (backoff_for : ℕ → ℕ)
    → IsKeyed table
    → All (From table) (reclaim_one table locked token id now backoff_for).0
reclaim_one-From table locked token id now backoff_for keyed =
    elim (reclaim_cases table locked token id now backoff_for) [
      | inl e ↦ rw e (From-refl table)
      | inr (j, there, named, stale, e) ↦ rw e (
          From-row j (reclaim_row backoff_for token now) table keyed there
            (reclaim_step backoff_for token now j stale))
    ]

cancel_job-From :
    (table : Table) (id : Text) (now : ℕ)
    → IsKeyed table
    → All (From table) (settle table (cancel_job table id now))
cancel_job-From table id now keyed = elim (cancel_cases table id now) [
  | inl e ↦ rw e (From-refl table)
  | inr (j, there, free, e) ↦
      rw e (From-row j (cancel_row now) table keyed there (cancel_step now j free))
]

enqueue-Origin :
    (table : Table) (id kind payload : Text) (max available_at now : ℕ)
    → All (Origin table) (settle table (enqueue table id kind payload max available_at now))
unfolding enqueue
enqueue-Origin table id kind payload max available_at now =
    elim (Bool-cases (any (λ j. text_eq j.id id) table)) [
      | inl t ↦ rw (t, enqueue) (From-Origin table table (From-refl table))
      | inr n ↦
          rw (n, enqueue)
            (All-append_one (Origin table) table _ (From-Origin table table (From-refl table))
              (inr (refl, refl, n)))
    ]

retry_job-Origin :
    (table : Table) (id new_id : Text) (now : ℕ)
    → All (Origin table) (settle table (retry_job table id new_id now))
unfolding retry_job
retry_job-Origin table id new_id now = elim (Job-cases (get_job table id)) [
  | inr (e, f) ↦ rw (f, retry_job) (From-Origin table table (From-refl table))
  | inl (j, f) ↦ elim (Bool-cases (state_eq j.state dead_letter)) [
    | inl t ↦
        rw (f, t, retry_job) (enqueue-Origin table new_id j.kind j.payload j.max_attempts now now)
    | inr n ↦ rw (f, n, retry_job) (From-Origin table table (From-refl table))
  ]
]

-- One statement on a table with unique ids: every row after it comes from a row before it with the
-- same id, by a transition that CanTransitionTo allows or by the cancel of a job that is not
-- terminal; attempts are counted by a claim and by nothing else; a terminal row is unchanged; and
-- only a new id starts as a queued row without attempts.
pub apply-Origin :
    (table : Table) (s : Statement) → IsKeyed table → All (Origin table) (apply table s)
unfolding apply heartbeat complete fail update_progress clear_completed can_transition_to
    is_terminal
apply-Origin table (enqueueing id kind payload max available_at now) k =
    enqueue-Origin table id kind payload max available_at now
apply-Origin table (claiming locked lease token worker kinds now) k =
    From-Origin table _ (claim_next-From table locked lease token worker kinds now k)
apply-Origin table (beating lease id token now) k =
    From-Origin table _ (From-held id token _ table (λ j r. ground arith))
apply-Origin table (completing id token now) k =
    From-Origin table _ (From-held id token _ table (λ j r. ground arith))
apply-Origin table (failing id token now next_run_at dead cause) k =
    From-Origin table _ (From-held id token _ table (λ j r. ground arith))
apply-Origin table (reporting id token current total now) k =
    From-Origin table _ (From-held id token _ table (λ j r. ground arith))
apply-Origin table (reclaiming locked token id now backoff_for) k =
    From-Origin table _ (reclaim_one-From table locked token id now backoff_for k)
apply-Origin table (cancelling id now) k = From-Origin table _ (cancel_job-From table id now k)
apply-Origin table (retrying_as id new_id now) k = retry_job-Origin table id new_id now
apply-Origin table (clearing older_than) k = From-Origin table _ (From-filter _ table)
