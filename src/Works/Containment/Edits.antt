-- ===== src/Works/Containment/Edits.antt =====
-- AddContains on merged works, and RemoveContains after AddContains.
use alexandryn.Base.{
  ◌≡◌, refl, sym, ap, ◌∙◌, subst, false, not, some, List, [], ◌∷◌, ◌++◌, arith, filter, any, Text,
  text_eq, text_eq_iff, text_eq_refl, conflict, error, ok,
}
use alexandryn.Merging.Chain.{member}
use alexandryn.Merging.Run.{fail, lift, >>=-eq-pure, fail_if-eq-pure}
use alexandryn.Works.{
  Work, WorkStore, find_by_id, find_by_id-id, find_by_id-save, save, save_self, save-save,
}
use alexandryn.Works.Resolve.{resolve_canonical_work, contains_closure}
use alexandryn.Works.Resolve.Canonical.{IsCanonicalOf, resolve_canonical_work_lem}
use alexandryn.Works.Containment.{add_contains, remove_contains}

-- Two ids that resolve to the same work cannot contain one another: neither a work itself, nor a
-- work that is merged with it.
pub add_contains_self :
    (works : WorkStore) (container containee r : Text)
    → IsCanonicalOf works container r
    → IsCanonicalOf works containee r
    → add_contains works container containee ≡ fail (error conflict)
unfolding add_contains
add_contains_self works container containee r p q = rw (
  ((resolve_canonical_work_lem works container).1 r).1 p,
  ((resolve_canonical_work_lem works containee).1 r).1 q,
  text_eq_refl r,
)

-- What an accepted AddContains has gone through.
add_contains_steps :
    (works : WorkStore) (container containee : Text) (after : WorkStore)
    → add_contains works container containee ≡ some (ok after)
    → (w : Work) × (find_by_id works container ≡ ok w)
      × (after ≡ save works (record w { contains = w.contains ++ (containee ∷ []) }))
unfolding add_contains
add_contains_steps works container containee after h =
    let (c, _, h1) = >>=-eq-pure (resolve_canonical_work works container) _ h in
    let (d, _, h2) = >>=-eq-pure (resolve_canonical_work works containee) _ h1 in
    let (_, h3) = fail_if-eq-pure (text_eq c d) _ _ h2 in
    let (closure, _, h4) = >>=-eq-pure (contains_closure works d) _ h3 in
    let (_, h5) = fail_if-eq-pure (member c closure) _ _ h4 in
    let (w, f, h6) = >>=-eq-pure (lift (find_by_id works container)) _ h5 in
    (w, ground arith, ground arith)

filter-added :
    (xs : List Text) (a : Text)
    → member a xs ≡ false
    → filter (λ x. not (text_eq x a)) (xs ++ (a ∷ [])) ≡ xs
unfolding member any filter
filter-added [] a h = rw (text_eq_refl a)
filter-added (x ∷ xs) a h = ground (arith, filter-added xs a)

-- Removing what was just added gives back the store row for row, if the container did not list it
-- before.
pub remove_contains-add_contains :
    (works : WorkStore) (container containee : Text) (after : WorkStore) (w : Work)
    → find_by_id works container ≡ ok w
    → member containee w.contains ≡ false
    → add_contains works container containee ≡ some (ok after)
    → remove_contains after container containee ≡ some (ok works)
unfolding remove_contains
remove_contains-add_contains works container containee after w f new done =
    let (v, g, e) = add_contains_steps works container containee after done in
    let same : v ≡ w = cc (f, g) in
    let named : w.id ≡ container = find_by_id-id works container w f in
    let hit : find_by_id (save works (record w { contains = w.contains ++ (containee ∷ []) }))
          container
        ≡ ok (record w { contains = w.contains ++ (containee ∷ []) }) =
      ground (
        arith,
        find_by_id-save works (record w { contains = w.contains ++ (containee ∷ []) }) container,
        text_eq_iff w.id container,
      ) in
    let start : after ≡ save works (record w { contains = w.contains ++ (containee ∷ []) }) =
      e
      ∙ ap (λ (x : Work). save works (record x { contains = x.contains ++ (containee ∷ []) }))
          same in
    subst (λ (s : WorkStore). remove_contains s container containee ≡ some (ok works)) (sym start)
      (rw (
        hit,
        filter-added w.contains containee new,
        save-save works (record w { contains = w.contains ++ (containee ∷ []) }) w refl,
        save_self works container w f,
      ))
