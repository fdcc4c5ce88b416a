-- ===== src/Works/Resolve/Samples.antt =====
-- The resolution of merges on the sample catalogue.
use alexandryn.Base.{
  ◌≡◌, refl, ◌↔◌, none, some, List, [], ◌∷◌, map, any, Text, text_eq, internal, error, Result, ok,
}
use alexandryn.Merging.Chain.{member, resolve_loop, resolve_next}
use alexandryn.Merging.Members.{In}
use alexandryn.Merging.Run.{fail}
use alexandryn.Works.{Work, find_by_id, merged_into_of}
use alexandryn.Works.Samples.{row, shelf, emma, emma2, emma-found, shelf-Distinct}
use alexandryn.Works.Resolve.{resolve_canonical_work, collect_merge_group, work_id}
use alexandryn.Works.Resolve.Canonical.{IsCanonicalOf, resolve_canonical_work_lem}
use alexandryn.Works.Resolve.Group.{collect_merge_group_lem}

-- Two works merged into one another, as only a direct edit of the table makes them.
cyclic :
    resolve_canonical_work (row emma (some emma2) [] ∷ row emma2 (some emma) [] ∷ []) emma
    ≡ fail (error internal)
unfolding resolve_canonical_work resolve_loop resolve_next member any merged_into_of find_by_id
    text_eq
cyclic = refl

resolve_canonical_work_lem_example :
    ((r : Result Text) × (resolve_canonical_work shelf emma2 ≡ some r))
    × ((r : Text)
        → (resolve_canonical_work shelf emma2 ≡ some (ok r)) ↔ IsCanonicalOf shelf emma2 r)
resolve_canonical_work_lem_example = resolve_canonical_work_lem shelf emma2

collect_merge_group_lem_example :
    (g : List Work) × (collect_merge_group shelf emma ≡ some (ok g))
    × ((x : Text) → In x (map work_id g) ↔ IsCanonicalOf shelf x emma)
collect_merge_group_lem_example =
    collect_merge_group_lem shelf emma (row emma none []) shelf-Distinct emma-found refl
