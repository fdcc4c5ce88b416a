-- ===== src/Works/Merge/Chains.antt =====
-- The chains of merges before and after a merge is recorded.
use alexandryn.Base.{
  ℕ, suc, ◌≡◌, sym, subst, inl, inr, false, Option, some, [], arith, Bool-cases, length, any, Text,
  text_eq, text_eq_iff, text_eq_refl, conflict, error, ok,
}
use alexandryn.Merging.Chain.{member}
use alexandryn.Merging.Chain.Ends.{
  EndsOff, EndsOff-moved, Ends-moved, Passes, reachable_loop-EndsOff, reachable_loop_finds,
}
use alexandryn.Merging.Run.{fail, lift, >>=-eq-pure, fail_if-eq-pure}
use alexandryn.Works.{
  Work, WorkStore, find_by_id, find_by_id-id, find_by_id-save, merged_into_of, merged_into_of-found,
  ids, save,
}
use alexandryn.Works.Resolve.{resolve_canonical_work}
use alexandryn.Works.Resolve.Canonical.{fuel_suffices, IsCanonicalOf, resolve_canonical_work_lem}
use alexandryn.Works.Merge.{
  source_reachable_from_target, would_create_self_containment, record_merge,
}

-- Every stored work has a canonical work: no chain of merges is a cycle or dangles.
abbrev pub IsGrounded : WorkStore → Type 0
IsGrounded works =
    (a : Text) (w : Work) → find_by_id works a ≡ ok w → (r : Text) × IsCanonicalOf works a r

-- What a merge that is accepted has gone through.
pub record_merge_steps :
    (works : WorkStore) (source target : Text) (after : WorkStore)
    → record_merge works source target ≡ some (ok after)
    → (w : Work) × (t : Text) × (source_reachable_from_target works source target ≡ some (ok false))
      × (resolve_canonical_work works target ≡ some (ok t))
      × (find_by_id works source ≡ ok w)
      × (after ≡ save works (record w { merged_into = some target }))
unfolding record_merge would_create_self_containment
record_merge_steps works source target after h =
    let (reachable, p, h1) = >>=-eq-pure (source_reachable_from_target works source target) _ h in
    let (off, h2) = fail_if-eq-pure reachable _ _ h1 in
    let (inside, q, h3) = >>=-eq-pure (would_create_self_containment works source target) _ h2 in
    let (_, h4) = fail_if-eq-pure inside _ _ h3 in
    let (w, f, h5) = >>=-eq-pure (lift (find_by_id works source)) _ h4 in
    let (t, canonical, _) = >>=-eq-pure (resolve_canonical_work works target) _ q in
    (w, t, rw (← off) p, canonical, ground arith, ground arith)

-- The references of a store in which one row was given another reference.
pub merged_into_of-save :
    (works : WorkStore) (w : Work) (source : Text) (o : Option Text)
    → find_by_id works source ≡ ok w
    → (merged_into_of (save works (record w { merged_into = o })) source ≡ ok o)
      × ((a : Text)
          → text_eq a source ≡ false
          → merged_into_of (save works (record w { merged_into = o })) a ≡ merged_into_of works a)
unfolding merged_into_of
merged_into_of-save works w source o f =
    let named : w.id ≡ source = find_by_id-id works source w f in
    (
      rw (find_by_id-save works (record w { merged_into = o }) source)
          (rw (named, text_eq_refl source)),
      λ a off.
          rw (find_by_id-save works (record w { merged_into = o }) a)
            (ground (arith, text_eq_iff w.id a, text_eq_iff a source, named)),
    )

-- The store that a merge leaves.
abbrev merged : WorkStore → Work → Text → WorkStore
merged works w target = save works (record w { merged_into = some target })

module _ (works : WorkStore) (source target : Text) (w : Work) (t : Text)
    (f : find_by_id works source ≡ ok w)
    (off : source_reachable_from_target works source target ≡ some (ok false))
    (end : IsCanonicalOf works target t) where
  same_off :
      (a : Text)
      → text_eq a source ≡ false
      → merged_into_of (merged works w target) a ≡ merged_into_of works a
  same_off = (merged_into_of-save works w source (some target) f).1

  -- The chain from the source now ends where the target's did.
  source_chain : IsCanonicalOf (merged works w target) source t
  unfolding source_reachable_from_target
  source_chain =
      let chain_off : EndsOff (merged_into_of works) source end.0 target t =
        reachable_loop-EndsOff (merged_into_of works) source _ [] end.0 target t end.1
          (λ x old. unfold member any in cc old) off in
      (
        suc end.0,
        (
          target,
          (merged_into_of-save works w source (some target) f).0,
          EndsOff-moved (merged_into_of works) (merged_into_of (merged works w target)) source
              same_off end.0 target t chain_off,
        ),
      )

  other_chain :
      (a r : Text)
      → IsCanonicalOf works a r
      → (s : Text) × IsCanonicalOf (merged works w target) a s
  other_chain a r p =
      let (m, (s, q)) =
        Ends-moved (merged_into_of works) (merged_into_of (merged works w target)) source same_off
          source_chain.0 t source_chain.1 p.0 a r p.1 in
      (s, (m, q))

  merged-IsGrounded : IsGrounded works → IsGrounded (merged works w target)
  merged-IsGrounded g a v found = elim (Bool-cases (text_eq a source)) [
    | inl there ↦ (
      t,
      subst (λ (x : Text). IsCanonicalOf (merged works w target) x t)
          (sym ((text_eq_iff a source).0 there)) source_chain,
    )
    | inr elsewhere ↦
        let old : find_by_id works a ≡ ok v =
          (let named : w.id ≡ source = find_by_id-id works source w f in
            ground (
              arith,
              find_by_id-save works (record w { merged_into = some target }) a,
              text_eq_iff w.id a,
              text_eq_iff a source,
            )) in
        let (r, p) = g a v old in other_chain a r p
  ]

-- Where every stored work has a canonical work, a merge that is accepted leaves every stored work
-- with a canonical work, and that of the source is now that of the target.
pub record_merge-IsGrounded :
    (works : WorkStore) (source target : Text) (after : WorkStore)
    → IsGrounded works
    → record_merge works source target ≡ some (ok after)
    → IsGrounded after × ((t : Text) × IsCanonicalOf works target t × IsCanonicalOf after source t)
record_merge-IsGrounded works source target after g done =
    let (w, t, off, canonical, f, e) = record_merge_steps works source target after done in
    let end : IsCanonicalOf works target t =
      ((resolve_canonical_work_lem works target).1 t).0 canonical in
    (
      subst IsGrounded (sym e) (merged-IsGrounded works source target w t f off end g),
      (
        t,
        end,
        subst (λ (s : WorkStore). IsCanonicalOf s source t) (sym e)
            (source_chain works source target w t f off end),
      ),
    )

-- A merge is refused as a conflict where the chain of merges from the target has an end and passes
-- the source on its way, at any distance; a merge into itself is the case of distance 0.
pub record_merge_cycle :
    (works : WorkStore) (source target t : Text) (n : ℕ)
    → IsCanonicalOf works target t
    → Passes (merged_into_of works) source n target
    → record_merge works source target ≡ fail (error conflict)
unfolding record_merge source_reachable_from_target member any
record_merge_cycle works source target t n end passes = rw (
    reachable_loop_finds (merged_into_of works) (ids works) (merged_into_of-found works) source
      (suc (length works)) [] end.0 n target t end.1 passes (λ x old. cc old) (fuel_suffices works))
