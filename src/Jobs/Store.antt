-- ===== src/Jobs/Store.antt =====
-- internal/jobs/store.go: the statements on the jobs table. The table is the list of its rows; each
-- method is one atomic step, as its transaction or its single statement makes it, and failures of
-- the driver are not modelled. Rows that another transaction has locked are an argument, `locked`,
-- of the two methods that skip them. Times are numbers of nanoseconds.
pub mod Rows
pub mod Fencing
pub mod Lifecycle
pub mod Transitions
mod Samples
use alexandryn.Base.{
  ℕ, ◌+◌, Bool, true, false, not, ◌&&◌, ◌||◌, Option, none, some, List, [], ◌∷◌, ◌++◌, map, ltb,
  leb, ◌==◌, if◌then◌else◌, length, filter, any, ℤ, Text, lit, text_eq, not_found, conflict, error,
  Result, ok, err, ◌>>=◌, ◌>>◌, reject_if,
}
use alexandryn.Jobs.State.{
  State, queued, running, retrying, completed, dead_letter, is_terminal, state_eq, Job,
}

abbrev pub Table : Type 0
Table = List Job

-- UPDATE jobs SET … WHERE …
unfoldable pub update_where : (Job → Bool) → (Job → Job) → Table → Table
update_where test change [] = []
update_where test change (j ∷ table) =
    (if test j then change j else j) ∷ update_where test change table

-- RowsAffected() == 1 of such an UPDATE
pub affected_one : (Job → Bool) → Table → Bool
unfolding filter
affected_one test table = length (filter test table) == 1

abbrev pub has_token : Text → Option Text → Bool
has_token token none = false
has_token token (some t) = text_eq t token

-- WHERE id = $1 AND lease_token = $2 AND status = 'running'
unfoldable pub is_held : Text → Text → Job → Bool
unfolding state_eq
is_held id token j = text_eq j.id id && (has_token token j.lease_token && state_eq j.state running)

pub get_job : Table → Text → Result Job
get_job [] id = err (error not_found)
get_job (j ∷ table) id = if text_eq j.id id then ok j else get_job table id

abbrev null_payload : Text → Text
null_payload [] = lit "null"
null_payload (c ∷ p) = c ∷ p

-- INSERT, which the primary key refuses for an id that is there
unfoldable pub enqueue : Table → Text → Text → Text → ℕ → ℕ → ℕ → Result Table
unfolding any
enqueue table id kind payload max_attempts available_at now =
    if any (λ j. text_eq j.id id) table
    then err (error conflict)
    else ok (
        table
        ++ (record {
          id = id;
          kind = kind;
          payload = null_payload payload;
          state = queued;
          attempts = 0;
          max_attempts = max_attempts;
          available_at = available_at;
          locked_until = none;
          lease_token = none;
          locked_by = none;
          last_error = none;
          progress = none;
          created_at = now;
          updated_at = now;
          completed_at = none;
        }
            ∷ []))

abbrev kind_allowed : List Text → Text → Bool
kind_allowed [] kind = true
kind_allowed (k ∷ kinds) kind = any (λ x. text_eq x kind) (k ∷ kinds)

-- The WHERE of the claim: status IN ('queued', 'retrying') AND available_at <= now AND kind = ANY
unfoldable pub claimable : List Text → ℕ → Job → Bool
unfolding state_eq any
claimable kinds now j =
    (state_eq j.state queued || state_eq j.state retrying)
    && (leb j.available_at now && kind_allowed kinds j.kind)

-- ORDER BY available_at LIMIT 1 FOR UPDATE SKIP LOCKED; among equals the first row.
pub select_oldest : (Job → Bool) → Table → Option Job
select_oldest test [] = none
select_oldest test (j ∷ table) =
    let rest = select_oldest test table in
    if test j
    then (elim rest [
      | none ↦ some j
      | some k ↦ if leb j.available_at k.available_at then some j else some k
    ])
    else rest

abbrev pub claim_row : ℕ → Text → Text → ℕ → Job → Job
claim_row lease_duration token worker now j = record j {
  state = running;
  locked_until = some (now + lease_duration);
  lease_token = some token;
  locked_by = some worker;
  attempts = j.attempts + 1;
  updated_at = now;
}

-- The job that is returned is the row as the claim wrote it.
pub claim_next : Table → (Text → Bool) → ℕ → Text → Text → List Text → ℕ → Table × Option Job
unfolding claimable select_oldest update_where
claim_next table locked lease_duration token worker kinds now =
    elim (select_oldest (λ j. claimable kinds now j && not (locked j.id)) table) [
      | none ↦ (table, none)
      | some j ↦ (
        update_where (λ k. text_eq k.id j.id) (claim_row lease_duration token worker now) table,
        some (claim_row lease_duration token worker now j),
      )
    ]

unfoldable pub heartbeat : Table → ℕ → Text → Text → ℕ → Table × Bool
unfolding update_where affected_one is_held
heartbeat table lease_duration id token now = (
  update_where (is_held id token)
      (λ j. record j { locked_until = some (now + lease_duration); updated_at = now }) table,
  affected_one (is_held id token) table,
)

unfoldable pub complete : Table → Text → Text → ℕ → Table × Bool
unfolding update_where affected_one is_held
complete table id token now = (
  update_where (is_held id token)
      (λ j. record j {
        state = completed;
        completed_at = some now;
        locked_until = none;
        updated_at = now;
      })
      table,
  affected_one (is_held id token) table,
)

-- `cause` is the error's text, as redactError stores it.
unfoldable pub fail : Table → Text → Text → ℕ → ℕ → Bool → Text → Table × Bool
unfolding update_where affected_one is_held
fail table id token now next_run_at dead cause = (
  update_where (is_held id token)
      (λ j. record j {
        state = if dead then dead_letter else retrying;
        available_at = next_run_at;
        last_error = some cause;
        locked_until = none;
        updated_at = now;
      })
      table,
  affected_one (is_held id token) table,
)

unfoldable pub update_progress : Table → Text → Text → ℤ → ℤ → ℕ → Table
unfolding update_where is_held
update_progress table id token current total now =
    update_where (is_held id token)
      (λ j. record j {
        progress = some (record { current = current; total = total });
        updated_at = now;
      })
      table

-- status = 'running' AND locked_until < now; a NULL locked_until is not below anything.
abbrev lease_over : ℕ → Option ℕ → Bool
lease_over now none = false
lease_over now (some t) = ltb t now

unfoldable pub is_stale : ℕ → Job → Bool
unfolding state_eq
is_stale now j = state_eq j.state running && lease_over now j.locked_until

abbrev reaper_last_error : Text
reaper_last_error = lit "worker lease expired without heartbeat"

abbrev pub reclaim_row : (ℕ → ℕ) → Text → ℕ → Job → Job
reclaim_row backoff_for token now j = record j {
  state = if leb j.max_attempts j.attempts then dead_letter else retrying;
  available_at = if leb j.max_attempts j.attempts then now else now + backoff_for j.attempts;
  lease_token = some token;
  locked_by = none;
  locked_until = none;
  last_error = some reaper_last_error;
  updated_at = now;
}

pub find_stale : Table → (Text → Bool) → Text → ℕ → Option Job
unfolding is_stale
find_stale [] locked id now = none
find_stale (j ∷ table) locked id now =
    if text_eq j.id id && (is_stale now j && not (locked j.id))
    then some j
    else find_stale table locked id now

pub reclaim_one : Table → (Text → Bool) → Text → Text → ℕ → (ℕ → ℕ) → Table × Bool
unfolding find_stale update_where
reclaim_one table locked token id now backoff_for = elim (find_stale table locked id now) [
  | none ↦ (table, false)
  | some j ↦ (update_where (λ k. text_eq k.id id) (reclaim_row backoff_for token now) table, true)
]

-- The loop of RecoverStale over the ids that the sweep selected. `token n` is the fresh id that the
-- generator gives to the reclaim after `n` others.
recover_loop : Table → (Text → Bool) → (ℕ → Text) → List Text → ℕ → (ℕ → ℕ) → ℕ → Table × ℕ
unfolding reclaim_one
recover_loop table locked token [] now backoff_for recovered = (table, recovered)
recover_loop table locked token (id ∷ ids) now backoff_for recovered =
    let after = reclaim_one table locked (token recovered) id now backoff_for in
    recover_loop after.0 locked token ids now backoff_for
      (if after.1 then recovered + 1 else recovered)

recover_stale : Table → (Text → Bool) → (ℕ → Text) → ℕ → (ℕ → ℕ) → Table × ℕ
unfolding recover_loop filter
recover_stale table locked token now backoff_for =
    recover_loop table locked token (map (λ j. j.id) (filter (is_stale now) table)) now backoff_for
      0

abbrev pub cancel_row : ℕ → Job → Job
cancel_row now j = record j {
  state = dead_letter;
  last_error = some (lit "cancelled_by_admin");
  completed_at = some now;
  locked_until = none;
  updated_at = now;
}

pub cancel_job : Table → Text → ℕ → Result Table
unfolding get_job update_where is_terminal
cancel_job table id now = do
  j ← get_job table id
  reject_if (is_terminal j.state) (error conflict)
  ok (update_where (λ k. text_eq k.id id) (cancel_row now) table)

unfoldable pub retry_job : Table → Text → Text → ℕ → Result Table
unfolding get_job enqueue state_eq
retry_job table id new_id now = do
  j ← get_job table id
  reject_if (not (state_eq j.state dead_letter)) (error conflict)
  enqueue table new_id j.kind j.payload j.max_attempts now now

abbrev done_by : ℕ → Job → Bool
done_by older_than j = elim j.completed_at [
  | some t ↦ leb t older_than
  | none ↦ leb j.updated_at older_than
]

unfoldable pub clear_completed : Table → ℕ → Table × ℕ
unfolding filter state_eq
clear_completed table older_than =
    let cleared = λ (j : Job). state_eq j.state completed && done_by older_than j in
    (filter (λ j. not (cleared j)) table, length (filter cleared table))

count_in : State → Table → ℕ
unfolding filter state_eq
count_in s table = length (filter (λ j. state_eq j.state s) table)
