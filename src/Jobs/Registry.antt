-- ===== src/Jobs/Registry.antt =====
-- internal/jobs/registry.go, and Enqueue of internal/jobs/queue.go. A handler is Go code that the
-- caller passes in; of a registration the model keeps the attempt budget, and whether the handler is
-- nil. A panic is `none`. The order of `kinds` is left out: only membership is asked of it.
use alexandryn.Base.{
  ℕ, Bool, true, false, ◌||◌, Option, none, some, List, [], ◌∷◌, map, if◌then◌else◌, ℤ, pos,
  pos_part, ltb_ℤ, Text, text_eq, is_empty, invalid_input, error, Result, err,
}
use alexandryn.Jobs.Store.{Table, enqueue}

pub record Registration : Type 0 where
  pub kind : Text
  pub max_attempts : ℕ

abbrev pub Registry : Type 0
Registry = List Registration

unfoldable pub lookup : Registry → Text → Option Registration
lookup [] kind = none
lookup (r ∷ registry) kind = if text_eq r.kind kind then some r else lookup registry kind

abbrev is_some : Option Registration → Bool
is_some none = false
is_some (some r) = true

-- `max_attempts` is an int; one below 1 panics.
register : Registry → Text → ℤ → Bool → Option Registry
unfolding lookup
register registry kind max_attempts nil_handler =
    if is_empty kind
      || (nil_handler || (ltb_ℤ max_attempts (pos 1) || is_some (lookup registry kind)))
    then none
    else some (record { kind = kind; max_attempts = pos_part max_attempts } ∷ registry)

unfoldable pub kinds : Registry → List Text
kinds registry = map (λ r. r.kind) registry

-- Queue.Enqueue; `payload` is the outcome of json.Marshal.
unfoldable pub queue_enqueue : Table → Registry → Text → Option Text → Text → ℕ → Result Table
unfolding lookup
queue_enqueue table registry kind payload new_id now = elim (lookup registry kind) [
  | none ↦ err (error invalid_input)
  | some r ↦ elim payload [
    | none ↦ err (error invalid_input)
    | some raw ↦ enqueue table new_id kind raw r.max_attempts now now
  ]
]
