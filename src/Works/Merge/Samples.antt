-- ===== src/Works/Merge/Samples.antt =====
-- Merges on the sample catalogue.
use alexandryn.Base.{
  ◌≡◌, refl, none, some, List, [], ◌∷◌, filter, any, Text, text_eq, conflict, error, ok,
}
use alexandryn.Merging.Chain.{member, resolve_loop, resolve_next, reachable_loop, reachable_next}
use alexandryn.Merging.Run.{fail}
use alexandryn.Works.{WorkStore, find_by_id, find_merged_into, merged_into_of, save}
use alexandryn.Works.Samples.{
  row, shelf, emma, emma2, omnibus, persuasion, emma2-canonical, persuasion-found, shelf-IsGrounded,
}
use alexandryn.Works.Resolve.{
  resolve_canonical_work, collect_loop, collect_merge_group, contains_closure, closure_loop,
  add_contained,
}
use alexandryn.Works.Resolve.Canonical.{IsCanonicalOf}
use alexandryn.Works.Merge.{
  source_reachable_from_target, would_create_self_containment, record_merge, undo_merge,
}
use alexandryn.Works.Merge.Chains.{IsGrounded, record_merge-IsGrounded, record_merge_cycle}
use alexandryn.Works.Merge.Undo.{
  Call, merging, undoing, run, undo_merge-record_merge, run-IsGrounded,
}

abbrev merged_shelf : WorkStore
merged_shelf = save shelf (row persuasion (some emma2) [])

persuasion_merged : record_merge shelf persuasion emma2 ≡ some (ok merged_shelf)
unfolding record_merge source_reachable_from_target would_create_self_containment
    resolve_canonical_work resolve_loop resolve_next reachable_loop reachable_next contains_closure
    closure_loop add_contained collect_merge_group collect_loop find_merged_into filter member any
    merged_into_of find_by_id text_eq save
persuasion_merged = refl

-- The omnibus contains `emma2`, so it may not take `emma` in.
contained : record_merge shelf emma omnibus ≡ fail (error conflict)
unfolding record_merge source_reachable_from_target would_create_self_containment
    resolve_canonical_work resolve_loop resolve_next reachable_loop reachable_next contains_closure
    closure_loop add_contained collect_merge_group collect_loop find_merged_into filter member any
    merged_into_of find_by_id text_eq
contained = refl

-- The other way round is accepted, and then `emma`, which the omnibus is merged into, contains
-- itself.
abbrev part_of_itself : WorkStore
part_of_itself = save shelf (row omnibus (some emma) (emma2 ∷ []))

container_merged :
    (record_merge shelf omnibus emma ≡ some (ok part_of_itself))
    × (contains_closure part_of_itself emma ≡ some (ok (emma ∷ [])))
unfolding record_merge source_reachable_from_target would_create_self_containment
    resolve_canonical_work resolve_loop resolve_next reachable_loop reachable_next contains_closure
    closure_loop add_contained collect_merge_group collect_loop find_merged_into filter member any
    merged_into_of find_by_id text_eq save
container_merged = (refl, refl)

record_merge-IsGrounded_example :
    IsGrounded merged_shelf
    × ((t : Text) × IsCanonicalOf shelf emma2 t × IsCanonicalOf merged_shelf persuasion t)
record_merge-IsGrounded_example =
    record_merge-IsGrounded shelf persuasion emma2 merged_shelf shelf-IsGrounded persuasion_merged

record_merge_cycle_example : record_merge shelf emma emma2 ≡ fail (error conflict)
record_merge_cycle_example =
    record_merge_cycle shelf emma emma2 emma 1 emma2-canonical
      (emma, unfold merged_into_of find_by_id text_eq in refl, refl)

undo_merge-record_merge_example : undo_merge merged_shelf persuasion ≡ some (ok shelf)
undo_merge-record_merge_example =
    undo_merge-record_merge shelf persuasion emma2 merged_shelf (row persuasion none [])
      persuasion-found refl persuasion_merged

abbrev edits : List Call
edits = merging persuasion emma2 ∷ merging emma emma2 ∷ undoing persuasion ∷ undoing emma2 ∷ []

run-IsGrounded_example : IsGrounded (run shelf edits)
run-IsGrounded_example = run-IsGrounded shelf edits shelf-IsGrounded
