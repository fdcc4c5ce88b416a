-- ===== src/Jobs/Store/Lifecycle.antt =====
-- The life of the rows under every sequence of statements: what each row keeps, and how one
-- statement may change it.
use alexandryn.Base.{
  ℕ, ◌<◌, ◌≡◌, refl, ◌≢◌, ◌⊎◌, inl, inr, Bool, true, false, none, List, [], ◌∷◌, arith, Bool-cases,
  any, All, ℤ, Text, text_eq,
}
use alexandryn.Jobs.State.{
  queued, running, retrying, completed, dead_letter, state_eq, is_terminal, Job,
}
use alexandryn.Jobs.Store.Rows.{
  settle, Job-cases, IsKeyed, All-both, All-filter, All-append_one, IsKeyed-append_one,
  IsKeyed-filter, claim_cases, reclaim_cases, All-map, only_row,
}
use alexandryn.Jobs.Store.{
  Table, update_where, is_held, get_job, claim_row, claim_next, enqueue, heartbeat, complete, fail,
  update_progress, is_stale, reclaim_row, reclaim_one, cancel_row, cancel_job, retry_job,
  clear_completed,
}

-- One statement of the store, with its arguments.
pub data Statement : Type 0 where
  enqueueing : Text → Text → Text → ℕ → ℕ → ℕ → Statement
  claiming : (Text → Bool) → ℕ → Text → Text → List Text → ℕ → Statement
  beating : ℕ → Text → Text → ℕ → Statement
  completing : Text → Text → ℕ → Statement
  failing : Text → Text → ℕ → ℕ → Bool → Text → Statement
  reporting : Text → Text → ℤ → ℤ → ℕ → Statement
  reclaiming : (Text → Bool) → Text → Text → ℕ → (ℕ → ℕ) → Statement
  cancelling : Text → ℕ → Statement
  retrying_as : Text → Text → ℕ → Statement
  clearing : ℕ → Statement

unfoldable pub apply : Table → Statement → Table
apply table (enqueueing id kind payload max available_at now) =
    settle table (enqueue table id kind payload max available_at now)
apply table (claiming locked lease token worker kinds now) =
    (claim_next table locked lease token worker kinds now).0
apply table (beating lease id token now) = (heartbeat table lease id token now).0
apply table (completing id token now) = (complete table id token now).0
apply table (failing id token now next_run_at dead cause) =
    (fail table id token now next_run_at dead cause).0
apply table (reporting id token current total now) =
    update_progress table id token current total now
apply table (reclaiming locked token id now backoff_for) =
    (reclaim_one table locked token id now backoff_for).0
apply table (cancelling id now) = settle table (cancel_job table id now)
apply table (retrying_as id new_id now) = settle table (retry_job table id new_id now)
apply table (clearing older_than) = (clear_completed table older_than).0

unfoldable pub run : Table → List Statement → Table
run table [] = table
run table (s ∷ ss) = run (apply table s) ss

-- What holds of a row between two statements.
pub record IsSound (j : Job) : Type 0 where
  pub leased : j.state ≡ running → (j.locked_until ≢ none) × (j.lease_token ≢ none)
  pub unleased : j.state ≢ running → j.locked_until ≡ none
  pub untried : j.state ≡ queued → (j.attempts ≡ 0) × (j.lease_token ≡ none)
  pub tried : (j.state ≡ running) ⊎ ((j.state ≡ retrying) ⊎ (j.state ≡ completed)) → 0 < j.attempts
  pub stamped : j.state ≡ completed → j.completed_at ≢ none

-- An update keeps what holds of every row, if it keeps it on the rows that it changes.
pub update_where-All :
    (P : Job → Type 0) (test : Job → Bool) (change : Job → Job) (table : Table)
    → All (λ j. test j ≡ true → P (change j)) table
    → All P table
    → All P (update_where test change table)
unfolding update_where
update_where-All P test change [] step h = tt
update_where-All P test change (j ∷ table) (s, step) (p, ps) = elim (Bool-cases (test j)) [
  | inl t ↦ rw t (s t, update_where-All P test change table step ps)
  | inr n ↦ rw n (p, update_where-All P test change table step ps)
]

All-each : (P : Job → Type 0) → ((j : Job) → P j) → (table : Table) → All P table
All-each P f [] = tt
All-each P f (j ∷ table) = (f j, All-each P f table)

-- Ids stay unique under every statement.
ids_apart :
    (test : Job → Bool) (change : Job → Job) (a : Text) (table : Table)
    → ((j : Job) → (change j).id ≡ j.id)
    → All (λ k. text_eq a k.id ≡ false) table
    → All (λ k. text_eq a k.id ≡ false) (update_where test change table)
ids_apart test change a table keep h =
    update_where-All (λ k. text_eq a k.id ≡ false) test change table
      (All-map (λ k. text_eq a k.id ≡ false) (λ k. test k ≡ true → text_eq a (change k).id ≡ false)
        (λ k e _. rw (keep k) e) table h)
      h

pub update_where-IsKeyed :
    (test : Job → Bool) (change : Job → Job) (table : Table)
    → ((j : Job) → (change j).id ≡ j.id)
    → IsKeyed table
    → IsKeyed (update_where test change table)
unfolding update_where
update_where-IsKeyed test change [] keep k = tt
update_where-IsKeyed test change (j ∷ table) keep (p, ps) = elim (Bool-cases (test j)) [
  | inl t ↦ rw t (
    rw (keep j) (ids_apart test change j.id table keep p),
    update_where-IsKeyed test change table keep ps,
  )
  | inr n ↦
      rw n (ids_apart test change j.id table keep p, update_where-IsKeyed test change table keep ps)
]

-- The tables that the statements leave: sound rows under unique ids.
abbrev pub IsGood : Table → Type 0
IsGood table = IsKeyed table × All IsSound table

claim_next-IsGood :
    (table : Table) (locked : Text → Bool) (lease : ℕ) (token worker : Text) (kinds : List Text)
    (now : ℕ)
    → IsGood table
    → IsGood (claim_next table locked lease token worker kinds now).0
claim_next-IsGood table locked lease token worker kinds now (keyed, sound) =
    elim (claim_cases table locked lease token worker kinds now) [
      | inl (e, _) ↦ rw e (keyed, sound)
      | inr (j, _, _, _, _, e) ↦ rw e (
        update_where-IsKeyed (λ k. text_eq k.id j.id) (claim_row lease token worker now) table
            (λ k. refl) keyed,
        update_where-All IsSound (λ k. text_eq k.id j.id) (claim_row lease token worker now) table
            (All-each (λ k. text_eq k.id j.id ≡ true → IsSound (claim_row lease token worker now k))
              (λ k _. ground arith) table)
            sound,
      )
    ]

-- A fenced write keeps the table good if it keeps the running rows sound.
held-IsGood :
    (id token : Text) (change : Job → Job) (table : Table)
    → ((j : Job) → (change j).id ≡ j.id)
    → ((j : Job) → j.state ≡ running → IsSound j → IsSound (change j))
    → IsGood table
    → IsGood (update_where (is_held id token) change table)
held-IsGood id token change table named keep (keyed, sound) = (
  update_where-IsKeyed (is_held id token) change table named keyed,
  update_where-All IsSound (is_held id token) change table
      (All-map IsSound (λ j. is_held id token j ≡ true → IsSound (change j))
        (λ j s h. keep j (unfold is_held in ground arith) s) table sound)
      sound,
)

reclaim_one-IsGood :
    (table : Table) (locked : Text → Bool) (token id : Text) (now : ℕ) (backoff_for : ℕ → ℕ)
    → IsGood table
    → IsGood (reclaim_one table locked token id now backoff_for).0
reclaim_one-IsGood table locked token id now backoff_for (keyed, sound) =
    elim (reclaim_cases table locked token id now backoff_for) [
      | inl e ↦ rw e (keyed, sound)
      | inr (j, there, named, stale, e) ↦ rw e (
        update_where-IsKeyed (λ k. text_eq k.id j.id) (reclaim_row backoff_for token now) table
            (λ k. refl) keyed,
        update_where-All IsSound (λ k. text_eq k.id j.id) (reclaim_row backoff_for token now) table
            (All-map (λ k. IsSound k × (text_eq k.id j.id ≡ true → k ≡ j))
              (λ k. text_eq k.id j.id ≡ true → IsSound (reclaim_row backoff_for token now k))
              (λ k both t. reclaimed k j both.0 stale (both.1 t)) table
              (All-both IsSound (λ k. text_eq k.id j.id ≡ true → k ≡ j) table sound
                (only_row j table keyed there)))
            sound,
      )
    ]
  where
    reclaimed :
        (k j : Job)
        → IsSound k
        → is_stale now j ≡ true
        → k ≡ j
        → IsSound (reclaim_row backoff_for token now k)
    reclaimed k j s stale e = unfold is_stale in ground arith

cancel_job-IsGood :
    (table : Table) (id : Text) (now : ℕ)
    → IsGood table
    → IsGood (settle table (cancel_job table id now))
unfolding cancel_job
cancel_job-IsGood table id now (keyed, sound) = elim (Job-cases (get_job table id)) [
  | inr (e, f) ↦ rw (f, cancel_job) (keyed, sound)
  | inl (j, f) ↦ elim (Bool-cases (is_terminal j.state)) [
    | inl t ↦ rw (f, t, cancel_job) (keyed, sound)
    | inr n ↦
        rw (f, n, cancel_job)
          (
            update_where-IsKeyed (λ k. text_eq k.id id) (cancel_row now) table (λ k. refl) keyed,
            update_where-All IsSound (λ k. text_eq k.id id) (cancel_row now) table
                (All-each (λ k. text_eq k.id id ≡ true → IsSound (cancel_row now k))
                  (λ k _. ground arith) table)
                sound,
          )
  ]
]

enqueue-IsGood :
    (table : Table) (id kind payload : Text) (max available_at now : ℕ)
    → IsGood table
    → IsGood (settle table (enqueue table id kind payload max available_at now))
unfolding enqueue
enqueue-IsGood table id kind payload max available_at now (keyed, sound) =
    elim (Bool-cases (any (λ j. text_eq j.id id) table)) [
      | inl t ↦ rw (t, enqueue) (keyed, sound)
      | inr n ↦
          rw (n, enqueue)
            (
              IsKeyed-append_one table _ n keyed,
              All-append_one IsSound table _ sound (ground arith),
            )
    ]

retry_job-IsGood :
    (table : Table) (id new_id : Text) (now : ℕ)
    → IsGood table
    → IsGood (settle table (retry_job table id new_id now))
unfolding retry_job
retry_job-IsGood table id new_id now good = elim (Job-cases (get_job table id)) [
  | inr (e, f) ↦ rw (f, retry_job) good
  | inl (j, f) ↦ elim (Bool-cases (state_eq j.state dead_letter)) [
    | inl t ↦
        rw (f, t, retry_job)
          (enqueue-IsGood table new_id j.kind j.payload j.max_attempts now now good)
    | inr n ↦ rw (f, n, retry_job) good
  ]
]

apply-IsGood : (table : Table) (s : Statement) → IsGood table → IsGood (apply table s)
unfolding apply heartbeat complete fail update_progress clear_completed
apply-IsGood table (enqueueing id kind payload max available_at now) g =
    enqueue-IsGood table id kind payload max available_at now g
apply-IsGood table (claiming locked lease token worker kinds now) g =
    claim_next-IsGood table locked lease token worker kinds now g
apply-IsGood table (beating lease id token now) g =
    held-IsGood id token _ table (λ j. refl) (λ j r s. ground arith) g
apply-IsGood table (completing id token now) g =
    held-IsGood id token _ table (λ j. refl) (λ j r s. ground arith) g
apply-IsGood table (failing id token now next_run_at dead cause) g =
    held-IsGood id token _ table (λ j. refl) (λ j r s. ground arith) g
apply-IsGood table (reporting id token current total now) g =
    held-IsGood id token _ table (λ j. refl) (λ j r s. ground arith) g
apply-IsGood table (reclaiming locked token id now backoff_for) g =
    reclaim_one-IsGood table locked token id now backoff_for g
apply-IsGood table (cancelling id now) g = cancel_job-IsGood table id now g
apply-IsGood table (retrying_as id new_id now) g = retry_job-IsGood table id new_id now g
apply-IsGood table (clearing older_than) (keyed, sound) =
    (IsKeyed-filter _ table keyed, All-filter IsSound _ table sound)

-- From a table with unique ids and sound rows, as the empty one is, any sequence of statements,
-- refused ones and lost leases included, leaves unique ids and sound rows: a row has a lease
-- exactly while it runs, a job that ran was counted, and a completed one is stamped.
pub run-IsGood : (table : Table) (ss : List Statement) → IsGood table → IsGood (run table ss)
unfolding run
run-IsGood table [] g = g
run-IsGood table (s ∷ ss) g = run-IsGood (apply table s) ss (apply-IsGood table s g)
