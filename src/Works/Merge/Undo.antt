-- ===== src/Works/Merge/Undo.antt =====
-- Undoing merges, and what holds after every sequence of merges and undos.
use alexandryn.Base.{
  ◌≡◌, refl, sym, ap, ◌∙◌, subst, inl, inr, none, some, List, [], ◌∷◌, arith, Bool-cases, Text,
  text_eq, text_eq_iff, ok, err,
}
use alexandryn.Merging.Chain.Ends.{Ends-moved}
use alexandryn.Merging.Run.{Run, lift, >>=-eq-pure}
use alexandryn.Works.{
  Work, WorkStore, find_by_id, find_by_id-id, find_by_id-save, merged_into_of, save, save_self,
  save-save,
}
use alexandryn.Works.Merge.{record_merge, undo_merge}
use alexandryn.Works.Merge.Chains.{
  IsGrounded, merged_into_of-save, record_merge_steps, record_merge-IsGrounded,
}

-- Undoing a merge that was just recorded gives back the store as it was, row for row, if the
-- source was not merged into anything before.
pub undo_merge-record_merge :
    (works : WorkStore) (source target : Text) (after : WorkStore) (w : Work)
    → find_by_id works source ≡ ok w
    → w.merged_into ≡ none
    → record_merge works source target ≡ some (ok after)
    → undo_merge after source ≡ some (ok works)
unfolding undo_merge
undo_merge-record_merge works source target after w f free done =
    let (v, t, off, canonical, g, e) = record_merge_steps works source target after done in
    let same : v ≡ w = cc (f, g) in
    let named : w.id ≡ source = find_by_id-id works source w f in
    let back : record w { merged_into = none } ≡ w = ground arith in
    let hit : find_by_id (save works (record w { merged_into = some target })) source
        ≡ ok (record w { merged_into = some target }) =
      ground (
        arith,
        find_by_id-save works (record w { merged_into = some target }) source,
        text_eq_iff w.id source,
      ) in
    let start : after ≡ save works (record w { merged_into = some target }) =
      e ∙ ap (λ (x : Work). save works (record x { merged_into = some target })) same in
    subst (λ (s : WorkStore). undo_merge s source ≡ some (ok works)) (sym start)
      (rw hit (
        rw
          (save-save works (record w { merged_into = some target })
            (record w { merged_into = none }) refl)
          (rw (back, save_self works source w f))))

undo_merge-IsGrounded :
    (works : WorkStore) (source : Text) (after : WorkStore)
    → IsGrounded works
    → undo_merge works source ≡ some (ok after)
    → IsGrounded after
unfolding undo_merge
undo_merge-IsGrounded works source after g done =
    let (w, f, rest) = >>=-eq-pure (lift (find_by_id works source)) _ done in
    let found : find_by_id works source ≡ ok w = ground arith in
    let e : save works (record w { merged_into = none }) ≡ after = ground arith in
    subst IsGrounded e (cleared w found)
  where
    cleared :
        (w : Work)
        → find_by_id works source ≡ ok w
        → IsGrounded (save works (record w { merged_into = none }))
    cleared w found a v here =
        let (now, same) = merged_into_of-save works w source none found in
        elim (Bool-cases (text_eq a source)) [
          | inl there ↦ (
            source,
            (
              0,
              (
                subst
                    (λ (x : Text).
                      merged_into_of (save works (record w { merged_into = none })) x ≡ ok none)
                    (sym ((text_eq_iff a source).0 there)) now,
                (text_eq_iff a source).0 there,
              ),
            ),
          )
          | inr elsewhere ↦
              let named : w.id ≡ source = find_by_id-id works source w found in
              let old : find_by_id works a ≡ ok v = ground (
                arith,
                find_by_id-save works (record w { merged_into = none }) a,
                text_eq_iff w.id a,
                text_eq_iff a source,
              ) in
              let (r, (n, p)) = g a v old in
              let (m, (s, q)) =
                Ends-moved (merged_into_of works)
                  (merged_into_of (save works (record w { merged_into = none }))) source same 0
                  source (now, refl) n a r p in
              (s, (m, q))
        ]

-- A call of the service.
pub data Call : Type 0 where
  merging : Text → Text → Call
  undoing : Text → Call

-- A call that fails leaves the store as it was.
abbrev settle : WorkStore → Run WorkStore → WorkStore
settle works none = works
settle works (some (err e)) = works
settle works (some (ok after)) = after

apply : WorkStore → Call → WorkStore
apply works (merging source target) = settle works (record_merge works source target)
apply works (undoing source) = settle works (undo_merge works source)

pub run : WorkStore → List Call → WorkStore
run works [] = works
run works (c ∷ cs) = run (apply works c) cs

settle-IsGrounded :
    (works : WorkStore) (r : Run WorkStore)
    → IsGrounded works
    → ((after : WorkStore) → r ≡ some (ok after) → IsGrounded after)
    → IsGrounded (settle works r)
settle-IsGrounded works none g h = g
settle-IsGrounded works (some (err e)) g h = g
settle-IsGrounded works (some (ok after)) g h = h after refl

apply-IsGrounded : (works : WorkStore) (c : Call) → IsGrounded works → IsGrounded (apply works c)
unfolding apply
apply-IsGrounded works (merging source target) g =
    settle-IsGrounded works (record_merge works source target) g
      (λ after h. (record_merge-IsGrounded works source target after g h).0)
apply-IsGrounded works (undoing source) g =
    settle-IsGrounded works (undo_merge works source) g
      (λ after h. undo_merge-IsGrounded works source after g h)

-- Where every stored work has a canonical work, this holds after any sequence of merges and undos
-- too: the merges never form a cycle and never dangle.
pub run-IsGrounded :
    (works : WorkStore) (cs : List Call) → IsGrounded works → IsGrounded (run works cs)
unfolding run
run-IsGrounded works [] g = g
run-IsGrounded works (c ∷ cs) g = run-IsGrounded (apply works c) cs (apply-IsGrounded works c g)
