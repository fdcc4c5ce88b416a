-- ===== src/Jobs/Store/Samples.antt =====
-- Statements on concrete tables of jobs.
use alexandryn.Base.{
  pos, ok, ℕ, ◌*◌, ◌≤◌, ◌≡◌, refl, ◌⊎◌, Bool, true, false, not, ◌&&◌, none, some, List, [], ◌∷◌,
  filter, any, All, Text, lit, text_eq,
}
use alexandryn.Jobs.State.{State, running, state_eq, is_terminal, Job}
use alexandryn.Jobs.Store.{
  Table, update_where, affected_one, is_held, enqueue, claimable, select_oldest, claim_row,
  claim_next, heartbeat, complete, fail, update_progress, is_stale, find_stale, get_job,
  reclaim_one, reclaim_row, cancel_row, cancel_job,
}
use alexandryn.Jobs.Store.Rows.{IsKeyed, Has, claim_cases}
use alexandryn.Jobs.Store.Fencing.{reclaim_one-fences, cancel_job-fences, claim_next-fences}
use alexandryn.Jobs.Store.Lifecycle.{
  Statement, enqueueing, claiming, completing, reclaiming, cancelling, apply, run, IsGood,
  run-IsGood,
}
use alexandryn.Jobs.Store.Transitions.{Origin, apply-Origin}

abbrev unlocked : Text → Bool
unlocked id = false

abbrev ten_each : ℕ → ℕ
ten_each n = 10 * n

-- Two jobs; the first is claimed, expires, is reclaimed and claimed again.
abbrev first_day : List Statement
first_day =
    enqueueing (lit "j1") (lit "import") [] 3 100 90
    ∷ enqueueing (lit "j2") (lit "scan") [] 3 200 90
    ∷ claiming unlocked 50 (lit "t1") (lit "w1") [] 300
    ∷ reclaiming unlocked (lit "t2") (lit "j1") 400 ten_each
    ∷ completing (lit "j1") (lit "t1") 410
    ∷ claiming unlocked 50 (lit "t3") (lit "w2") (lit "import" ∷ []) 420
    ∷ []

-- The job as the second claim leaves it: the late completion under the old token changed nothing.
abbrev second_claim : Job
second_claim = record {
  id = lit "j1";
  kind = lit "import";
  payload = lit "null";
  state = running;
  attempts = 2;
  max_attempts = 3;
  available_at = 410;
  locked_until = some 470;
  lease_token = some (lit "t3");
  locked_by = some (lit "w2");
  last_error = some (lit "worker lease expired without heartbeat");
  progress = none;
  created_at = 90;
  updated_at = 420;
  completed_at = none;
}

abbrev waiting_job : Job
waiting_job = record {
  id = lit "j2";
  kind = lit "scan";
  payload = lit "null";
  state = State.queued;
  attempts = 0;
  max_attempts = 3;
  available_at = 200;
  locked_until = none;
  lease_token = none;
  locked_by = none;
  last_error = none;
  progress = none;
  created_at = 90;
  updated_at = 90;
  completed_at = none;
}

abbrev evening : Table
evening = second_claim ∷ waiting_job ∷ []

first_day-run : run [] first_day ≡ evening
unfolding run apply enqueue claim_next claimable select_oldest update_where state_eq text_eq any
    reclaim_one find_stale is_stale complete is_held affected_one filter
first_day-run = refl

run-IsGood_example : IsGood (run [] first_day)
run-IsGood_example = run-IsGood [] first_day (tt, tt)

evening-IsKeyed : IsKeyed evening
unfolding text_eq
evening-IsKeyed = ((refl, tt), (tt, tt))

apply-Origin_example : All (Origin evening) (apply evening (cancelling (lit "j2") 500))
apply-Origin_example = apply-Origin evening (cancelling (lit "j2") 500) evening-IsKeyed

claim_cases_example :
    ((claim_next evening unlocked 50 (lit "t4") (lit "w1") [] 500 ≡ (evening, none))
      × All (λ k. (claimable [] 500 k && not (unlocked k.id)) ≡ false) evening)
    ⊎ ((j : Job) × Has j evening
        × (claimable [] 500 j ≡ true)
        × (unlocked j.id ≡ false)
        × All
            (λ k.
              (claimable [] 500 k && not (unlocked k.id)) ≡ true → j.available_at ≤ k.available_at)
            evening
        × (claim_next evening unlocked 50 (lit "t4") (lit "w1") [] 500 ≡ (
          update_where (λ k. text_eq k.id j.id) (claim_row 50 (lit "t4") (lit "w1") 500) evening,
          some (claim_row 50 (lit "t4") (lit "w1") 500 j),
        )))
claim_cases_example = claim_cases evening unlocked 50 (lit "t4") (lit "w1") [] 500

abbrev reclaimed : Table
reclaimed = (reclaim_one evening unlocked (lit "t5") (lit "j1") 500 ten_each).0

reclaim_one-fences_example :
    (heartbeat reclaimed 50 (lit "j1") (lit "t3") 600 ≡ (reclaimed, false))
    × (complete reclaimed (lit "j1") (lit "t3") 600 ≡ (reclaimed, false))
    × (fail reclaimed (lit "j1") (lit "t3") 600 700 true (lit "late") ≡ (reclaimed, false))
    × (update_progress reclaimed (lit "j1") (lit "t3") (pos 1) (pos 2) 600 ≡ reclaimed)
reclaim_one-fences_example =
    reclaim_one-fences evening unlocked (lit "j1") (lit "t5") (lit "t3") 500 ten_each
      (unfold reclaim_one find_stale is_stale text_eq state_eq in refl) (unfold text_eq in refl) 50
      600 700 true (lit "late") (pos 1) (pos 2)

abbrev cancelled : Table
cancelled = update_where (λ k. text_eq k.id (lit "j1")) (cancel_row 500) evening

evening-cancelled : cancel_job evening (lit "j1") 500 ≡ ok cancelled
unfolding cancel_job get_job update_where is_terminal text_eq
evening-cancelled = refl

cancel_job-fences_run :
    (heartbeat cancelled 50 (lit "j1") (lit "t3") 600 ≡ (cancelled, false))
    × (complete cancelled (lit "j1") (lit "t3") 600 ≡ (cancelled, false))
    × (fail cancelled (lit "j1") (lit "t3") 600 700 true (lit "late") ≡ (cancelled, false))
    × (update_progress cancelled (lit "j1") (lit "t3") (pos 1) (pos 2) 600 ≡ cancelled)
cancel_job-fences_run =
    cancel_job-fences evening cancelled (lit "j1") (lit "t3") 500 evening-cancelled 50 600 700 true
      (lit "late") (pos 1) (pos 2)

-- The reclaimed job, claimed again.
abbrev third_claim : Job
third_claim =
    claim_row 50 (lit "t6") (lit "w3") 600 (reclaim_row ten_each (lit "t5") 500 second_claim)

abbrev night : Table
night = third_claim ∷ waiting_job ∷ []

reclaimed_claim :
    claim_next reclaimed unlocked 50 (lit "t6") (lit "w3") (lit "import" ∷ []) 600
    ≡ (night, some third_claim)
unfolding claim_next claimable select_oldest update_where reclaim_one find_stale is_stale state_eq
    text_eq any
reclaimed_claim = refl

claim_next-fences_example :
    (heartbeat night 50 (lit "j1") (lit "t3") 610 ≡ (night, false))
    × (complete night (lit "j1") (lit "t3") 610 ≡ (night, false))
    × (fail night (lit "j1") (lit "t3") 610 700 true (lit "late") ≡ (night, false))
    × (update_progress night (lit "j1") (lit "t3") (pos 1) (pos 2) 610 ≡ night)
claim_next-fences_example =
    claim_next-fences reclaimed night unlocked 50 (lit "t6") (lit "w3") (lit "t3")
      (lit "import" ∷ []) 600 third_claim reclaimed_claim (unfold text_eq in refl) 50 610 700 true
      (lit "late") (pos 1) (pos 2)
