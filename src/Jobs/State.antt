-- ===== src/Jobs/State.antt =====
-- internal/jobs/job.go: the lifecycle of a job and the row of the jobs table.
use alexandryn.Base.{ℕ, Bool, true, false, Option, ℤ, Text}

-- The jobs_status_check constraint keeps every other text out of the table.
pub data State : Type 0 where
  queued running retrying completed dead_letter : State

State-discrete : Discrete State
State-discrete = hlevel

unfoldable pub is_terminal : State → Bool
is_terminal completed = true
is_terminal dead_letter = true
is_terminal _ = false

unfoldable pub can_transition_to : State → State → Bool
can_transition_to queued running = true
can_transition_to retrying running = true
can_transition_to running completed = true
can_transition_to running retrying = true
can_transition_to running dead_letter = true
can_transition_to _ _ = false

-- `==` of two states
unfoldable pub state_eq : State → State → Bool
state_eq queued queued = true
state_eq running running = true
state_eq retrying retrying = true
state_eq completed completed = true
state_eq dead_letter dead_letter = true
state_eq _ _ = false

pub record Progress : Type 0 where
  pub current : ℤ
  pub total : ℤ

-- A nil pointer, or a NULL that the row scan reads as "", is `none`.
pub record Job : Type 0 where
  pub id : Text
  pub kind : Text
  pub payload : Text
  pub state : State
  pub attempts : ℕ
  pub max_attempts : ℕ
  pub available_at : ℕ
  pub locked_until : Option ℕ
  pub lease_token : Option Text
  pub locked_by : Option Text
  pub last_error : Option Text
  pub progress : Option Progress
  pub created_at : ℕ
  pub updated_at : ℕ
  pub completed_at : Option ℕ
