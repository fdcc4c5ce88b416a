-- ===== src/Works/Containment/Samples.antt =====
-- Containment on the sample catalogue.
use alexandryn.Base.{◌≡◌, refl, none, some, [], ◌∷◌, filter, any, text_eq, conflict, error, ok}
use alexandryn.Merging.Chain.{member, resolve_loop, resolve_next}
use alexandryn.Merging.Run.{fail}
use alexandryn.Works.{WorkStore, find_by_id, find_merged_into, merged_into_of, save}
use alexandryn.Works.Samples.{
  row, shelf, emma, emma2, persuasion, emma-canonical, emma2-canonical, persuasion-found,
}
use alexandryn.Works.Resolve.{
  resolve_canonical_work, collect_loop, collect_merge_group, contains_closure, closure_loop,
  add_contained,
}
use alexandryn.Works.Containment.{add_contains, remove_contains}
use alexandryn.Works.Containment.Edits.{add_contains_self, remove_contains-add_contains}

-- A work does not contain what it is merged with.
add_contains_self_run : add_contains shelf emma emma2 ≡ fail (error conflict)
add_contains_self_run = add_contains_self shelf emma emma2 emma emma-canonical emma2-canonical

abbrev bound_shelf : WorkStore
bound_shelf = save shelf (row persuasion none (emma2 ∷ []))

persuasion_added : add_contains shelf persuasion emma2 ≡ some (ok bound_shelf)
unfolding add_contains resolve_canonical_work resolve_loop resolve_next contains_closure
    closure_loop add_contained collect_merge_group collect_loop find_merged_into filter member any
    merged_into_of find_by_id text_eq save
persuasion_added = refl

remove_contains-add_contains_run : remove_contains bound_shelf persuasion emma2 ≡ some (ok shelf)
remove_contains-add_contains_run =
    remove_contains-add_contains shelf persuasion emma2 bound_shelf (row persuasion none [])
      persuasion-found (unfold member any in refl) persuasion_added
