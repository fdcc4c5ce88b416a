-- ===== src/Jobs/Engine/Tally.antt =====
-- The attempts column as a tally of the claims, under every step of the pool.
use alexandryn.Base.{
  ℕ, ◌+◌, ◌≡◌, refl, sym, ◌∙◌, subst, inl, inr, Bool, true, false, ◌||◌, some, List, [], ◌∷◌, arith,
  if◌then◌else◌, Bool-cases, Option-cases, any, All, Text, text_eq, text_eq_iff, text_eq_refl,
}
use alexandryn.Jobs.State.{dead_letter, state_eq, Job}
use alexandryn.Jobs.Store.{
  Table, update_where, claim_row, reclaim_row, is_held, complete, fail, heartbeat, update_progress,
  cancel_row, retry_job, enqueue, get_job, clear_completed,
}
use alexandryn.Jobs.Store.Rows.{
  settle, All-map, All-filter, All-append_one, claim_cases, reclaim_cases, cancel_cases, Job-cases,
}
use alexandryn.Jobs.Store.Lifecycle.{update_where-All}
use alexandryn.Jobs.Registry.{lookup, kinds, queue_enqueue}
use alexandryn.Jobs.Engine.{
  Pool, Execution, token_of, finish_success, finish_failure, execute, Engine, pick, Event, polling,
  ending, beating, reporting, reaping, enqueuing, cancelling, retrying_as, clearing, no_kinds,
  poll_once, step, steps,
}
use alexandryn.Jobs.Engine.Claims.{has_row, is_claim, claims_in, claims}

module _ (pool : Pool) (token : ℕ → Text) where
  module _ (id : Text) where
    -- The rows under the id have been claimed `n` times.
    abbrev IsCounted : ℕ → Table → Type 0
    IsCounted n table = All (λ j. text_eq j.id id ≡ true → n ≡ j.attempts) table

    abbrev IsTallied : ℕ → Table → Type 0
    IsTallied n table = IsCounted n table × (has_row id table ≡ false → n ≡ 0)

    uncounted : (n : ℕ) (table : Table) → has_row id table ≡ false → IsCounted n table
    unfolding any
    uncounted n [] h = tt
    uncounted n (j ∷ table) h = ((λ t. ground arith), uncounted n table (ground arith))

    tallied :
        (n : ℕ) (table : Table)
        → IsCounted n table
        → IsTallied (if has_row id table then n else 0) table
    tallied n table c = elim (Bool-cases (has_row id table)) [
      | inl y ↦ rw y (c, λ h. cc h)
      | inr gone ↦ rw gone (uncounted 0 table gone, λ h. refl)
    ]

    -- A change of rows that keeps ids and attempts.
    kept_counts :
        (n : ℕ) (test : Job → Bool) (change : Job → Job) (table : Table)
        → ((j : Job) → (change j).id ≡ j.id)
        → ((j : Job) → (change j).attempts ≡ j.attempts)
        → IsCounted n table
        → IsCounted n (update_where test change table)
    kept_counts n test change table named same c =
        update_where-All (λ j. text_eq j.id id ≡ true → n ≡ j.attempts) test change table
          (All-map (λ j. text_eq j.id id ≡ true → n ≡ j.attempts)
            (λ j. test j ≡ true → text_eq (change j).id id ≡ true → n ≡ (change j).attempts)
            (λ j h t k. h (rw (named j) at k) ∙ sym (same j)) table c)
          c

    -- The claim of the job counts, that of another does not.
    claim_counts :
        (n lease now : ℕ) (tok worker : Text) (j : Job) (table : Table)
        → IsCounted n table
        → IsCounted
            (n + is_claim id (some j))
            (update_where (λ k. text_eq k.id j.id) (claim_row lease tok worker now) table)
    unfolding update_where
    claim_counts n lease now tok worker j [] c = tt
    claim_counts n lease now tok worker j (k ∷ table) (h, c) =
        let rest = claim_counts n lease now tok worker j table c in
        elim (Bool-cases (text_eq k.id j.id)) [
          | inl y ↦
              let same = (text_eq_iff k.id j.id).0 y in
              rw y ((λ t. rw (← same, t) (ground (arith, h t))), rest)
          | inr other ↦
              let apart : text_eq k.id id ≡ true → text_eq j.id id ≡ false = λ t.
                elim (Bool-cases (text_eq j.id id)) [
                  | inr z ↦ z
                  | inl y ↦
                      let same = (text_eq_iff k.id id).0 t ∙ sym ((text_eq_iff j.id id).0 y) in
                      cc (rw (same, text_eq_refl j.id) at other)
                ] in
              rw other ((λ t. rw (apart t) (ground (arith, h t))), rest)
        ]

    still : (n : ℕ) (table : Table) → IsCounted n table → IsCounted (n + 0) table
    still n table c = subst (λ (m : ℕ). IsCounted m table) (omega arith) c

    failure-counts :
        (n : ℕ) (table : Table) (f : Job) (cause : Text) (dead : Bool) (now : ℕ)
        → IsCounted n table
        → IsCounted n (finish_failure pool table f cause dead now)
    unfolding finish_failure fail
    failure-counts n table f cause dead now c =
        kept_counts n (is_held f.id (token_of f)) _ table (λ j. refl) (λ j. refl) c

    execute-counts :
        (n : ℕ) (table : Table) (f : Job) (run : Execution) (now : ℕ)
        → IsCounted n table
        → IsCounted n (execute pool table f run now)
    unfolding execute
    execute-counts n table f run now c = elim (Option-cases (lookup pool.registry f.kind)) [
      | inl e ↦ rw (e, execute) (failure-counts n table f _ true now c)
      | inr (r, e) ↦ elim (Bool-cases (run.lease_lost || (run.shut_down || run.job_cancelled))) [
        | inl gone ↦ rw (e, gone, execute) c
        | inr live ↦ elim (Option-cases run.failure) [
          | inl good ↦
              rw (e, live, good, execute)
                (unfold finish_success complete in
                  kept_counts n (is_held f.id (token_of f)) _ table (λ j. refl) (λ j. refl) c)
          | inr ((permanent, cause), bad) ↦
              rw (e, live, bad, execute) (failure-counts n table f cause _ now c)
        ]
      ]
    ]

    -- A new row is under an id without a row, which was not claimed.
    enqueue-counts :
        (n : ℕ) (table : Table) (new_id kind payload : Text) (max now : ℕ)
        → IsTallied n table
        → IsCounted n (settle table (enqueue table new_id kind payload max now now))
    enqueue-counts n table new_id kind payload max now (c, none_there) =
        elim (Bool-cases (any (λ j. text_eq j.id new_id) table)) [
          | inl t ↦ unfold enqueue in rw (t, enqueue) c
          | inr free ↦
              unfold enqueue in
              rw (free, enqueue)
                (All-append_one (λ j. text_eq j.id id ≡ true → n ≡ j.attempts) table _ c
                  (λ t. none_there (rw (← (text_eq_iff new_id id).0 t) free)))
        ]

    poll-counts :
        (n : ℕ) (e : Engine) (paused : Bool) (locked : Text → Bool) (worker : Text) (now : ℕ)
        → IsCounted n e.table
        → IsCounted
            (n + claims_in pool token id e (polling paused locked worker now))
            (poll_once pool token e paused locked worker now).table
    unfolding poll_once claims_in
    poll-counts n e paused locked worker now c =
        elim (Bool-cases (paused || no_kinds pool.registry)) [
          | inl idle ↦ rw (idle, poll_once, claims_in) (still n e.table c)
          | inr works ↦
              elim (claim_cases e.table locked pool.lease_duration (token e.used) worker
                (kinds pool.registry) now) [
                  | inl (d, _) ↦ rw (works, poll_once, claims_in, d) (still n e.table c)
                  | inr (j, _, _, _, _, d) ↦
                      rw (works, poll_once, claims_in, d)
                        (claim_counts n pool.lease_duration now (token e.used) worker j e.table c)
                ]
        ]

    step-counts :
        (n : ℕ) (e : Engine) (v : Event)
        → IsTallied n e.table
        → IsCounted (n + claims_in pool token id e v) (step pool token e v).table
    unfolding step heartbeat update_progress claims_in queue_enqueue retry_job clear_completed
    step-counts n e (polling paused locked worker now) (c, z) =
        poll-counts n e paused locked worker now c
    step-counts n e (ending i run now) (c, z) =
        still n _ (elim (Option-cases (pick i e.in_flight)) [
          | inl gone ↦ rw (gone, step) c
          | inr ((f, rest), p) ↦ rw (p, step) (execute-counts n e.table f run now c)
        ])
    step-counts n e (beating j now) (c, z) =
        still n _ (kept_counts n (is_held j.id (token_of j)) _ e.table (λ k. refl) (λ k. refl) c)
    step-counts n e (reporting j current total now) (c, z) =
        still n _ (kept_counts n (is_held j.id (token_of j)) _ e.table (λ k. refl) (λ k. refl) c)
    step-counts n e (reaping locked fresh now) (c, z) =
        still n _ (elim (reclaim_cases e.table locked (token e.used) fresh now pool.backoff_for) [
          | inl d ↦ rw d c
          | inr (j, _, _, _, d) ↦ rw d (
              kept_counts n (λ k. text_eq k.id j.id) (reclaim_row pool.backoff_for _ now) e.table
                (λ k. refl) (λ k. refl) c)
        ])
    step-counts n e (enqueuing kind payload fresh now) (c, z) =
        still n _ (elim (Option-cases (lookup pool.registry kind)) [
          | inl none_there ↦ rw (none_there, queue_enqueue) c
          | inr (r, found) ↦ elim (Option-cases payload) [
            | inl bad ↦ rw (found, bad, queue_enqueue) c
            | inr (raw, good) ↦
                rw (found, good, queue_enqueue)
                  (enqueue-counts n e.table fresh kind raw r.max_attempts now (c, z))
          ]
        ])
    step-counts n e (cancelling other now) (c, z) =
        still n _ (elim (cancel_cases e.table other now) [
          | inl d ↦ rw d c
          | inr (j, _, _, d) ↦ rw d (
              kept_counts n (λ k. text_eq k.id j.id) (cancel_row now) e.table (λ k. refl)
                (λ k. refl) c)
        ])
    step-counts n e (retrying_as other fresh now) (c, z) =
        still n _ (elim (Job-cases (get_job e.table other)) [
          | inr (x, f) ↦ rw (f, retry_job) c
          | inl (j, f) ↦ elim (Bool-cases (state_eq j.state dead_letter)) [
            | inl t ↦
                rw (f, t, retry_job)
                  (enqueue-counts n e.table fresh j.kind j.payload j.max_attempts now (c, z))
            | inr m ↦ rw (f, m, retry_job) c
          ]
        ])
    step-counts n e (clearing older) (c, z) =
        still n _ (All-filter (λ j. text_eq j.id id ≡ true → n ≡ j.attempts) _ e.table c)

    steps-counts :
        (vs : List Event) (e : Engine) (n : ℕ)
        → IsTallied n e.table
        → IsCounted (claims pool token id e vs n) (steps pool token e vs).table
    unfolding claims steps
    steps-counts [] e n t = t.0
    steps-counts (v ∷ vs) e n t =
        steps-counts vs (step pool token e v) _ (tallied _ _ (step-counts n e v t))

  own_count :
      (e : Engine) (vs : List Event) (table : Table)
      → ((id : Text)
          → All (λ j. text_eq j.id id ≡ true → claims pool token id e vs 0 ≡ j.attempts) table)
      → All (λ j. claims pool token j.id e vs 0 ≡ j.attempts) table
  own_count e vs [] h = tt
  own_count e vs (j ∷ table) h =
      ((h j.id).0 (text_eq_refl j.id), own_count e vs table (λ id. (h id).1))

  -- From an empty table, the attempts of a row are the claims of its job.
  pub claims-attempts :
      (e : Engine) (vs : List Event)
      → e.table ≡ []
      → All (λ j. claims pool token j.id e vs 0 ≡ j.attempts) (steps pool token e vs).table
  claims-attempts e vs empty =
      own_count e vs _ (λ id. steps-counts id vs e 0 (rw empty (tt, λ h. refl)))
