-- ===== src/Works/Resolve/Canonical.antt =====
-- resolveCanonicalWork against the end of the chain of merges.
use alexandryn.Base.{
  ℕ, suc, ◌<◌, ◌≡◌, refl, ap, ◌↔◌, some, [], ◌∷◌, arith, length, any, Text, Result, ok,
}
use alexandryn.Merging.Chain.{member}
use alexandryn.Merging.Chain.Ends.{Ends, resolve_loop-Ends, resolve_loop_finds}
use alexandryn.Merging.Chain.Total.{fresh, fresh_le, resolve_loop_total}
use alexandryn.Works.{WorkStore, merged_into_of, merged_into_of-found, ids}
use alexandryn.Works.Resolve.{resolve_canonical_work}

length-ids : (works : WorkStore) → length (ids works) ≡ length works
length-ids [] = refl
length-ids (w ∷ works) = ap suc (length-ids works)

pub fuel_suffices : (works : WorkStore) → fresh (ids works) [] < suc (length works)
fuel_suffices works = omega (arith, fresh_le (ids works) [], length-ids works)

-- The id `r` is where the merges of `id` end.
abbrev pub IsCanonicalOf : WorkStore → Text → Text → Type 0
IsCanonicalOf works id r = (n : ℕ) × Ends (merged_into_of works) n id r

-- On every store, with cycles or dangling references too, the loop ends with a result; and it
-- returns `r` exactly if the chain of merges from `id` ends at `r`.
pub resolve_canonical_work_lem :
    (works : WorkStore) (id : Text)
    → ((r : Result Text) × (resolve_canonical_work works id ≡ some r))
      × ((r : Text) → (resolve_canonical_work works id ≡ some (ok r)) ↔ IsCanonicalOf works id r)
unfolding resolve_canonical_work member any
resolve_canonical_work_lem works id = (
  resolve_loop_total (merged_into_of works) (ids works) (merged_into_of-found works)
      (suc (length works)) [] id (fuel_suffices works),
  λ r. (
    λ h. resolve_loop-Ends (merged_into_of works) (suc (length works)) [] id r h,
    λ p.
        resolve_loop_finds (merged_into_of works) (ids works) (merged_into_of-found works)
          (suc (length works)) [] p.0 id r p.1 (λ x old. cc old) (fuel_suffices works),
  ),
)
