-- ===== src/Works/Resolve.antt =====
-- internal/domain/resolve_work.go: the canonical work behind an id, the group of works merged into
-- it, the closure of its contents, and the union that readers see.
-- A Go map used as a set is the list of its keys. Fuel: a round of each loop takes one id that was
-- not taken before, so one round more than there are rows is given; the closure has one more
-- round, for the start.
pub mod Canonical
pub mod Group
mod Members
mod Samples
use alexandryn.Base.{
  ℕ, zero, suc, ◌+◌, Bool, ◌&&◌, Option, none, some, List, [], ◌∷◌, ◌++◌, map, if◌then◌else◌,
  length, any, Text, text_eq, ok,
}
use mathlib.Core.Option
use alexandryn.Merging.Chain.{member, resolve_loop}
use alexandryn.Merging.Run.{Run, pure, lift, ◌>>=◌, ◌>>◌}
use alexandryn.Works.{Work, WorkStore, find_by_id, find_merged_into, merged_into_of}

unfoldable pub resolve_canonical_work : WorkStore → Text → Run Text
resolve_canonical_work works id = resolve_loop (merged_into_of works) (suc (length works)) [] id

abbrev pub work_id : Work → Text
work_id w = w.id

-- The breadth-first loop; `queue` holds the ids whose members are still to be fetched.
unfoldable pub collect_loop : ℕ → WorkStore → List Work → List Text → Option (List Work)
collect_loop zero works group queue = none
collect_loop (suc fuel) works group [] = some group
collect_loop (suc fuel) works group (current ∷ queue) =
    let members = find_merged_into works current in
    collect_loop fuel works (group ++ members) (queue ++ map work_id members)

unfoldable pub collect_merge_group : WorkStore → Text → Run (List Work)
unfolding collect_loop
collect_merge_group works canonical = do
  canonical_work ← lift (find_by_id works canonical)
  Option.map ok (collect_loop (suc (length works)) works (canonical_work ∷ []) (canonical ∷ []))

-- The inner loops of containsClosure over the contained ids of a group.
unfoldable pub add_contained :
    WorkStore → List Text → List Text → List Text → Run (List Text × List Text)
add_contained works [] closure queue = pure (closure, queue)
add_contained works (c ∷ cs) closure queue = do
  resolved ← resolve_canonical_work works c
  add_contained works cs (if member resolved closure then closure else resolved ∷ closure)
      (if member resolved closure then queue else queue ++ (resolved ∷ []))

abbrev all_contains : List Work → List Text
all_contains [] = []
all_contains (w ∷ group) = w.contains ++ all_contains group

unfoldable pub closure_loop : ℕ → WorkStore → List Text → List Text → List Text → Run (List Text)
unfolding add_contained
closure_loop zero works closure queue visited_groups = none
closure_loop (suc fuel) works closure [] visited_groups = pure closure
closure_loop (suc fuel) works closure (canonical ∷ queue) visited_groups =
    let skip = closure_loop fuel works closure queue visited_groups in
    let walk = (do
      group ← collect_merge_group works canonical
      found ← add_contained works (all_contains group) closure queue
      closure_loop fuel works found.0 found.1 (canonical ∷ visited_groups)) in
    if member canonical visited_groups then skip else walk

unfoldable pub contains_closure : WorkStore → Text → Run (List Text)
unfolding closure_loop
contains_closure works start = do
  start_canonical ← resolve_canonical_work works start
  closure_loop (suc (suc (suc (length works)))) works [] (start_canonical ∷ []) []

pub record ResolvedWork : Type 0 where
  pub canonical_id : Text
  pub title : Text
  pub subtitle : Text
  pub authors : List Text
  pub subjects : List Text
  pub original_language : Option Text
  pub external_references : List (Text × Text)
  pub contains : List Text

-- `if !seen[a] { seen[a] = true; result = append(result, a) }` over a list; the keys seen are the
-- results so far.
module _ {A : Type 0} (same : A → A → Bool) where
  append_new : List A → List A → List A
  append_new result [] = result
  append_new result (a ∷ more) =
      append_new (if any (λ x. same x a) result then result else result ++ (a ∷ [])) more

  union_of : (Work → List A) → List A → List Work → List A
  unfolding append_new
  union_of field result [] = result
  union_of field result (w ∷ group) = union_of field (append_new result (field w)) group

abbrev reference_eq : Text × Text → Text × Text → Bool
reference_eq r s = text_eq r.0 s.0 && text_eq r.1 s.1

resolve_work : WorkStore → Text → Run ResolvedWork
unfolding resolve_canonical_work collect_merge_group union_of
resolve_work works id = do
  canonical ← resolve_canonical_work works id
  canonical_work ← lift (find_by_id works canonical)
  group ← collect_merge_group works canonical
  pure (record {
    canonical_id = canonical;
    title = canonical_work.title;
    subtitle = canonical_work.subtitle;
    authors = union_of text_eq (λ w. w.authors) [] group;
    subjects = union_of text_eq (λ w. w.subjects) [] group;
    original_language = canonical_work.original_language;
    external_references = union_of reference_eq (λ w. w.external_references) [] group;
    contains = union_of text_eq (λ w. w.contains) [] group;
  })
