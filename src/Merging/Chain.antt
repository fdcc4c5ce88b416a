-- ===== src/Merging/Chain.antt =====
-- The loops that follow merge references one by one: resolveCanonicalWork of
-- internal/domain/resolve_work.go, and sourceReachableFromTarget of
-- internal/domain/work_merge_service.go. `next` is
-- FindByID followed by MergedInto.
-- Each loop takes fuel; `none` means that it ran out.
pub mod Ends
pub mod Total
use alexandryn.Base.{
  ℕ, zero, suc, Bool, true, false, Option, none, some, List, ◌∷◌, if◌then◌else◌, any, Text, text_eq,
  internal, error, Result, ok, err,
}

-- `seen[current]`, where `seen` holds the keys that were set to true.
unfoldable pub member : Text → List Text → Bool
member a xs = any (λ x. text_eq x a) xs

-- The rest of a round, once FindByID and MergedInto have answered: the loop goes on at the target.
unfoldable pub resolve_next :
    Text → (Text → Option (Result Text)) → Result (Option Text) → Option (Result Text)
resolve_next current again (err e) = some (err e)
resolve_next current again (ok none) = some (ok current)
resolve_next current again (ok (some target)) = again target

unfoldable pub reachable_next :
    (Text → Option (Result Bool)) → Result (Option Text) → Option (Result Bool)
reachable_next again (err e) = some (err e)
reachable_next again (ok none) = some (ok false)
reachable_next again (ok (some target)) = again target

module _ (next : Text → Result (Option Text)) where
  unfoldable pub resolve_loop : ℕ → List Text → Text → Option (Result Text)
  unfolding resolve_next
  resolve_loop zero seen current = none
  resolve_loop (suc fuel) seen current =
      if member current seen
      then some (err (error internal))
      else resolve_next current (resolve_loop fuel (current ∷ seen)) (next current)

  unfoldable pub reachable_loop : Text → ℕ → List Text → Text → Option (Result Bool)
  unfolding reachable_next
  reachable_loop source zero visited current = none
  reachable_loop source (suc fuel) visited current =
      if text_eq current source
      then some (ok true)
      else if member current visited
      then some (ok false)
      else reachable_next (reachable_loop source fuel (current ∷ visited)) (next current)
