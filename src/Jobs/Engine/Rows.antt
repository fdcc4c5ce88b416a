-- ===== src/Jobs/Engine/Rows.antt =====
-- The invariant of the pool, row by row, and the changes that keep it.
use alexandryn.Base.{
  ℕ, zero, suc, ◌≤◌, ◌<◌, ◌≡◌, refl, sym, ap, ◌∙◌, subst, ◌≢◌, ◌⊎◌, inl, inr, Bool, true, false,
  ◌||◌, Option, none, some, List, [], ◌∷◌, arith, leb, if◌then◌else◌, Bool-cases, Option-cases,
  &&-true, All, Text, text_eq,
}
use alexandryn.Jobs.State.{
  queued, running, retrying, completed, dead_letter, state_eq, is_terminal, Job,
}
use alexandryn.Jobs.Store.{
  Table, update_where, has_token, is_held, claimable, claim_row, complete, fail,
}
use alexandryn.Jobs.Store.Rows.{Has, IsKeyed, only_row, All-map, All-both}
use alexandryn.Jobs.Store.Lifecycle.{update_where-All, update_where-IsKeyed}
use alexandryn.Jobs.Registry.{Registration, lookup}
use alexandryn.Jobs.Engine.{
  Pool, Execution, token_of, finish_success, finish_failure, execute, Engine, pick, step,
}

-- A picked execution and the others were in flight.
pub pick-All :
    (P : Job → Type 0) (n : ℕ) (js : List Job) (f : Job) (rest : List Job)
    → pick n js ≡ some (f, rest)
    → All P js
    → P f × All P rest
pick-All P n [] f rest h a = cc h
pick-All P zero (j ∷ js) f rest h (p, ps) = ground arith
pick-All P (suc n) (j ∷ js) f rest h (p, ps) = elim (Option-cases (pick n js)) [
  | inl e ↦ cc (rw e at h)
  | inr ((k, others), e) ↦
      let (q, qs) = pick-All P n js k others e ps in
      let same : ◌≡◌ {A = Option (Job × List Job)} (some (k, j ∷ others)) (some (f, rest)) =
        rw e at h in
      let first : k ≡ f = ground arith in
      let second : j ∷ others ≡ rest = ground arith in
      (subst P first q, subst (λ (x : List Job). All P x) second (p, qs))
]

module _ (pool : Pool) (token : ℕ → Text) where
  -- The budget of a row is the registered one of its kind, and is not exceeded; while the row waits for
  -- a claim, an attempt is left.
  pub record InBudget (j : Job) : Type 0 where
    pub positive : 0 < j.max_attempts
    pub registered :
        (r : Registration) → lookup pool.registry j.kind ≡ some r → r.max_attempts ≡ j.max_attempts
    pub within : j.attempts ≤ j.max_attempts
    pub left : (j.state ≡ queued) ⊎ (j.state ≡ retrying) → j.attempts < j.max_attempts

  -- The lease token is none, or one of the first `used` tokens.
  abbrev pub Numbered : ℕ → Option Text → Type 0
  Numbered used o = (o ≡ none) ⊎ ((n : ℕ) × (n < used) × (o ≡ some (token n)))

  -- A row that an execution holds is the row as it was claimed, as far as the budget goes.
  abbrev pub Linked : Job → Job → Type 0
  Linked f j = is_held f.id (token_of f) j ≡ true → (j.attempts ≡ f.attempts) × (j.kind ≡ f.kind)

  abbrev pub IsSafeRow : ℕ → List Job → Job → Type 0
  IsSafeRow used flights j =
      InBudget j × Numbered used j.lease_token × All (λ f. Linked f j) flights

  abbrev pub IsNumbered : ℕ → Job → Type 0
  IsNumbered used f = (n : ℕ) × (n < used) × (f.lease_token ≡ some (token n))

  -- The invariant of the pool.
  pub record IsSafe (e : Engine) : Type 0 where
    pub keyed : IsKeyed e.table
    pub rows : All (IsSafeRow e.used e.in_flight) e.table
    pub flights : All (IsNumbered e.used) e.in_flight

  -- A row that does not run is held by nobody.
  pub not_held : (j : Job) (fs : List Job) → j.state ≢ running → All (λ f. Linked f j) fs
  unfolding is_held state_eq
  not_held j [] h = tt
  not_held j (f ∷ fs) h = ((λ held. absurd (h (ground arith))), not_held j fs h)

  -- A change that keeps what the budget is about, and the state or ends it.
  pub kept :
      (used : ℕ) (fs : List Job) (j k : Job)
      → k.id ≡ j.id
      → k.kind ≡ j.kind
      → k.attempts ≡ j.attempts
      → k.max_attempts ≡ j.max_attempts
      → k.lease_token ≡ j.lease_token
      → (k.state ≡ j.state) ⊎ (is_terminal k.state ≡ true)
      → IsSafeRow used fs j
      → IsSafeRow used fs k
  unfolding is_terminal
  kept used fs j k id kind attempts max tok state (b, n, l) = (
    record {
      positive = ground arith;
      registered = λ r found. b.registered r (cc (found, kind)) ∙ sym max;
      within = ground arith;
      left = λ w. ground (arith, b.left);
    },
    subst (λ (o : Option Text). Numbered used o) (sym tok) n,
    elim state [ inl same ↦ links same fs l | inr over ↦ not_held k fs (λ e. ground arith) ],
  )
    where
      links :
          k.state ≡ j.state → (gs : List Job) → All (λ f. Linked f j) gs → All (λ f. Linked f k) gs
      links same [] h = tt
      links same (f ∷ gs) (h, hs) = (
        (λ held.
            let (a, c) = h (unfold is_held in rw (← id, ← tok, ← same) held) in
            (attempts ∙ a, kind ∙ c)),
        links same gs hs,
      )

  -- An update of rows keeps the invariant if it keeps that of each row.
  updated :
      (used : ℕ) (fs : List Job) (test : Job → Bool) (change : Job → Job) (table : Table)
      → ((j : Job) → (change j).id ≡ j.id)
      → All (λ j. test j ≡ true → IsSafeRow used fs (change j)) table
      → IsKeyed table × All (IsSafeRow used fs) table
      → IsKeyed (update_where test change table)
        × All (IsSafeRow used fs) (update_where test change table)
  updated used fs test change table named step (keyed, rows) = (
    update_where-IsKeyed test change table named keyed,
    update_where-All (IsSafeRow used fs) test change table step rows,
  )

  -- Every row in turn, with what holds of it.
  each_row :
      (P Q : Job → Type 0) (table : Table) → ((j : Job) → P j → Q j) → All P table → All Q table
  each_row P Q table f h = All-map P Q f table h

  -- The writes that a lease token guards.
  pub held :
      (used : ℕ) (fs : List Job) (id tok : Text) (change : Job → Job) (table : Table)
      → ((j : Job) → (change j).id ≡ j.id)
      → ((j : Job) → is_held id tok j ≡ true → IsSafeRow used fs j → IsSafeRow used fs (change j))
      → IsKeyed table × All (IsSafeRow used fs) table
      → IsKeyed (update_where (is_held id tok) change table)
        × All (IsSafeRow used fs) (update_where (is_held id tok) change table)
  held used fs id tok change table named step (keyed, rows) =
      updated used fs (is_held id tok) change table named
        (All-map (IsSafeRow used fs) (λ j. is_held id tok j ≡ true → IsSafeRow used fs (change j))
          (λ j s h. step j h s) table rows)
        (keyed, rows)

  -- Updates of one row by its id.
  pub by_id :
      (used later : ℕ) (fs gs : List Job) (j : Job) (change : Job → Job) (table : Table)
      → ((k : Job) → (change k).id ≡ k.id)
      → Has j table
      → (IsSafeRow used fs j → IsSafeRow later gs (change j))
      → ((k : Job) → IsSafeRow used fs k → IsSafeRow later gs k)
      → IsKeyed table × All (IsSafeRow used fs) table
      → IsKeyed (update_where (λ k. text_eq k.id j.id) change table)
        × All (IsSafeRow later gs) (update_where (λ k. text_eq k.id j.id) change table)
  by_id used later fs gs j change table named there step weaken (keyed, rows) =
      updated later gs (λ k. text_eq k.id j.id) change table named
        (All-map (λ k. IsSafeRow used fs k × (text_eq k.id j.id ≡ true → k ≡ j))
          (λ k. text_eq k.id j.id ≡ true → IsSafeRow later gs (change k))
          (λ k both t.
            subst (λ (x : Job). IsSafeRow later gs (change x)) (sym (both.1 t))
              (step (subst (λ (x : Job). IsSafeRow used fs x) (both.1 t) both.0)))
          table
          (All-both (IsSafeRow used fs) (λ k. text_eq k.id j.id ≡ true → k ≡ j) table rows
            (only_row j table keyed there)))
        (keyed, All-map (IsSafeRow used fs) (IsSafeRow later gs) weaken table rows)

  later_number : (used : ℕ) (o : Option Text) → Numbered used o → Numbered (suc used) o
  later_number used o (inl e) = inl e
  later_number used o (inr (n, lt, e)) = inr (n, omega arith, e)

  pub later_row :
      (used : ℕ) (fs : List Job) (j : Job) → IsSafeRow used fs j → IsSafeRow (suc used) fs j
  later_row used fs j (b, n, l) = (b, later_number used j.lease_token n, l)

  pub later_flights :
      (used : ℕ) (fs : List Job) → All (IsNumbered used) fs → All (IsNumbered (suc used)) fs
  later_flights used fs h =
      All-map (IsNumbered used) (IsNumbered (suc used)) (λ f p. (p.0, omega arith, p.2)) fs h

  pub claim_budget :
      (names : List Text) (lease : ℕ) (tok worker : Text) (now : ℕ) (j : Job)
      → claimable names now j ≡ true
      → InBudget j
      → InBudget (claim_row lease tok worker now j)
  unfolding claimable state_eq
  claim_budget names lease tok worker now j c b = record {
    positive = b.positive;
    registered = b.registered;
    within = ground (arith, b.left);
    left = λ w. ground arith;
  }

  -- A row that stops running, with an attempt left if it waits.
  pub stopped :
      (used : ℕ) (fs : List Job) (j k : Job)
      → k.kind ≡ j.kind
      → k.attempts ≡ j.attempts
      → k.max_attempts ≡ j.max_attempts
      → k.state ≢ running
      → ((k.state ≡ queued) ⊎ (k.state ≡ retrying) → j.attempts < j.max_attempts)
      → Numbered used k.lease_token
      → InBudget j
      → IsSafeRow used fs k
  stopped used fs j k kind attempts max state waits n b = (
    record {
      positive = ground arith;
      registered = λ r found. b.registered r (cc (found, kind)) ∙ sym max;
      within = ground arith;
      left = λ w. ground (arith, waits w);
    },
    n,
    not_held k fs state,
  )

  -- The guard of the writes compares the token.
  pub held_token :
      (id tok : Text) (j : Job) → is_held id tok j ≡ true → has_token tok j.lease_token ≡ true
  unfolding is_held
  held_token id tok j h = (&&-true _ _ (&&-true (text_eq j.id id) _ h).1).0

  complete_row :
      (used now : ℕ) (fs : List Job) (j : Job)
      → IsSafeRow used fs j
      → IsSafeRow used fs (record j {
        state = completed;
        completed_at = some now;
        locked_until = none;
        updated_at = now;
      })
  complete_row used now fs j h =
      kept used fs j _ refl refl refl refl refl (inr (unfold is_terminal in refl)) h

  -- The end of an execution: a failure that is retried leaves an attempt.
  fail_row :
      (used now next : ℕ) (fs : List Job) (dead : Bool) (cause : Text) (j : Job)
      → (dead ≡ false → j.attempts < j.max_attempts)
      → IsSafeRow used fs j
      → IsSafeRow used fs (record j {
        state = if dead then dead_letter else retrying;
        available_at = next;
        last_error = some cause;
        locked_until = none;
        updated_at = now;
      })
  fail_row used now next fs true cause j w (b, n, l) =
      stopped used fs j _ refl refl refl (λ e. cc e) (λ h. ground arith) n b
  fail_row used now next fs false cause j w (b, n, l) =
      stopped used fs j _ refl refl refl (λ e. cc e) (λ h. w refl) n b

  abbrev IsSafeTable : ℕ → List Job → Table → Type 0
  IsSafeTable used fs table = IsKeyed table × All (IsSafeRow used fs) table

  failure_safe :
      (used now : ℕ) (f : Job) (fs : List Job) (cause : Text) (dead : Bool) (table : Table)
      → ((j : Job)
          → is_held f.id (token_of f) j ≡ true
          → IsSafeRow used (f ∷ fs) j
          → dead ≡ false
          → j.attempts < j.max_attempts)
      → IsSafeTable used (f ∷ fs) table
      → IsSafeTable used (f ∷ fs) (finish_failure pool table f cause dead now)
  unfolding finish_failure fail
  failure_safe used now f fs cause dead table w h =
      held used (f ∷ fs) f.id (token_of f) _ table (λ j. refl)
        (λ j t s. fail_row used now _ (f ∷ fs) dead cause j (w j t s) s) h

  pub execute_safe :
      (used now : ℕ) (f : Job) (fs : List Job) (run : Execution) (table : Table)
      → IsSafeTable used (f ∷ fs) table
      → IsSafeTable used (f ∷ fs) (execute pool table f run now)
  unfolding execute
  execute_safe used now f fs run table h = elim (Option-cases (lookup pool.registry f.kind)) [
    | inl e ↦ rw (e, execute) (failure_safe used now f fs _ true table (λ j t s x. cc x) h)
    | inr (r, e) ↦ elim (Bool-cases (run.lease_lost || (run.shut_down || run.job_cancelled))) [
      | inl gone ↦ rw (e, gone, execute) h
      | inr live ↦ elim (Option-cases run.failure) [
        | inl good ↦ rw (e, live, good, execute) (success h)
        | inr ((permanent, cause), bad) ↦
            rw (e, live, bad, execute)
              (failure_safe used now f fs cause (permanent || leb r.max_attempts f.attempts) table
                (λ j t (b, n, (l, ls)) x.
                  let (same, kind) = l t in
                  let budget : r.max_attempts ≡ j.max_attempts =
                    b.registered r (ap (lookup pool.registry) kind ∙ e) in
                  ground arith)
                h)
      ]
    ]
  ]
    where
      success :
          IsSafeTable used (f ∷ fs) table → IsSafeTable used (f ∷ fs) (finish_success table f now)
      success s =
          unfold finish_success complete in
          held used (f ∷ fs) f.id (token_of f) _ table (λ j. refl)
            (λ j t k. complete_row used now (f ∷ fs) j k) s
