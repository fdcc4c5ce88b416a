-- ===== src/Works/Library/Ownership.antt =====
-- Which works are in the library.
use alexandryn.Base.{
  ◌≡◌, refl, sym, subst, ◌↔◌, ◌⊎◌, inl, inr, Bool, true, false, none, List, [], ◌∷◌, map,
  Bool-cases, filter, Text, text_eq, text_eq_iff, not_found, error, Result, ok, err,
}
use alexandryn.Merging.Members.{In, Distinct}
use alexandryn.Merging.Run.{pure}
use alexandryn.Works.{Work, WorkStore, find_by_id, ids}
use alexandryn.Works.Resolve.{work_id}
use alexandryn.Works.Resolve.Canonical.{IsCanonicalOf, resolve_canonical_work_lem}
use alexandryn.Works.Resolve.Group.{collect_merge_group_lem}
use alexandryn.Works.Library.{
  Edition, LibraryEntry, find_by_work, find_by_edition, editions_owned, group_owned, is_in_library,
}

-- Some edition of the list has the property.
abbrev Some {ℓ} : {A : Type ℓ} → (A → Type 0) → List A → Type 0
Some P [] = ⊥
Some P (x ∷ xs) = P x ⊎ Some P xs

-- The edition has a library entry.
abbrev IsOwned : List LibraryEntry → Text → Type 0
IsOwned entries edition_id = (l : LibraryEntry) × (find_by_edition entries edition_id ≡ ok l)

Entry-cases :
    (entries : List LibraryEntry) (a : Text)
    → (find_by_edition entries a ≡ err (error not_found)) ⊎ IsOwned entries a
unfolding find_by_edition
Entry-cases [] a = inl refl
Entry-cases (l ∷ entries) a = elim (Bool-cases (text_eq l.edition_id a)) [
  | inl e ↦ inr (l, rw e)
  | inr n ↦ rw n (Entry-cases entries a)
]

-- The answer of a loop is `true` exactly if `P` holds; it is never an error.
abbrev Decides : Result Bool → Type 0 → Type 0
Decides r P = ((r ≡ ok true) × P) ⊎ ((r ≡ ok false) × (P → ⊥))

editions_owned-Decides :
    (entries : List LibraryEntry) (editions : List Edition) (later : Result Bool) (P : Type 0)
    → Decides later P
    → Decides
        (editions_owned entries editions later)
        (Some (λ e. IsOwned entries e.id) editions ⊎ P)
unfolding editions_owned
editions_owned-Decides entries [] later P (inl (p, h)) = inl (p, inr h)
editions_owned-Decides entries [] later P (inr (p, h)) =
    inr (p, λ s. elim s [ inl k ↦ k | inr k ↦ h k ])
editions_owned-Decides entries (e ∷ editions) later P d =
    let rest = editions_owned-Decides entries editions later P d in
    elim (Entry-cases entries e.id) [
      | inr (l, f) ↦ inl (rw (f), inl (inl (l, f)))
      | inl f ↦ elim rest [
        | inl (p, s) ↦ inl (rw f p, elim s [ inl k ↦ inl (inr k) | inr k ↦ inr k ])
        | inr (p, n) ↦ inr (
          rw f p,
          λ s. elim s [
            | inl k ↦ elim k [ inl (l, g) ↦ cc (f, g) | inr m ↦ n (inl m) ]
            | inr k ↦ n (inr k)
          ],
        )
      ]
    ]

-- An owned edition of a work of the group.
abbrev OwnedIn : List Edition → List LibraryEntry → List Work → Type 0
OwnedIn editions entries [] = ⊥
OwnedIn editions entries (w ∷ group) =
    Some (λ e. IsOwned entries e.id) (find_by_work editions w.id) ⊎ OwnedIn editions entries group

group_owned-Decides :
    (editions : List Edition) (entries : List LibraryEntry) (group : List Work)
    → Decides (group_owned editions entries group) (OwnedIn editions entries group)
unfolding group_owned
group_owned-Decides editions entries [] = inr (refl, λ h. h)
group_owned-Decides editions entries (w ∷ group) =
    editions_owned-Decides entries (find_by_work editions w.id) (group_owned editions entries group)
      (OwnedIn editions entries group) (group_owned-Decides editions entries group)

-- An edition of work `x` that has an entry.
abbrev pub OwnedOf : List Edition → List LibraryEntry → Text → Type 0
OwnedOf editions entries x = Some (λ e. (e.work_id ≡ x) × IsOwned entries e.id) editions

find_by_work_iff :
    (editions : List Edition) (entries : List LibraryEntry) (x : Text)
    → Some (λ e. IsOwned entries e.id) (find_by_work editions x) ↔ OwnedOf editions entries x
unfolding find_by_work filter
find_by_work_iff [] entries x = (λ h. h, λ h. h)
find_by_work_iff (e ∷ editions) entries x =
    let (to, from) = find_by_work_iff editions entries x in
    elim (Bool-cases (text_eq e.work_id x)) [
      | inl same ↦
          rw (same, find_by_work, filter)
            (
              λ h. elim h [
                | inl k ↦ inl ((text_eq_iff e.work_id x).0 same, k)
                | inr k ↦ inr (to k)
              ],
              λ h. elim h [ inl k ↦ inl k.1 | inr k ↦ inr (from k) ],
            )
      | inr other ↦
          rw (other, find_by_work, filter)
            (
              λ h. inr (to h),
              λ h. elim h [ inl k ↦ cc (other, (text_eq_iff e.work_id x).1 k.0) | inr k ↦ from k ],
            )
    ]

OwnedIn-iff :
    (editions : List Edition) (entries : List LibraryEntry) (group : List Work)
    → OwnedIn editions entries group
      ↔ ((x : Text) × In x (map work_id group) × OwnedOf editions entries x)
OwnedIn-iff editions entries [] = (λ h. absurd h, λ (x, m, o). m)
OwnedIn-iff editions entries (w ∷ group) =
    let (to, from) = OwnedIn-iff editions entries group in
    (
      λ h. elim h [
        | inl k ↦ (w.id, inl refl, (find_by_work_iff editions entries w.id).0 k)
        | inr k ↦ let (x, m, o) = to k in (x, inr m, o)
      ],
      λ (x, m, o). elim m [
        | inl e ↦ inl (
            (find_by_work_iff editions entries w.id).1
              (subst (λ (y : Text). OwnedOf editions entries y) (sym e) o))
        | inr k ↦ inr (from (x, k, o))
      ],
    )

-- A work is in the library exactly if some edition with an entry belongs to a work whose merges
-- end where those of the work do; the answer is then `true`, and otherwise `false`. The canonical
-- work must be stored and merged into nothing, and ids must be unique.
pub is_in_library_lem :
    (works : WorkStore) (editions : List Edition) (entries : List LibraryEntry) (id r : Text)
    (w : Work)
    → Distinct (ids works)
    → IsCanonicalOf works id r
    → find_by_id works r ≡ ok w
    → w.merged_into ≡ none
    → let owned = (x : Text) × IsCanonicalOf works x r × OwnedOf editions entries x in
      ((is_in_library works editions entries id ≡ pure true) × owned)
      ⊎ ((is_in_library works editions entries id ≡ pure false) × (owned → ⊥))
unfolding is_in_library
is_in_library_lem works editions entries id r w keyed c f free =
    let canonical = ((resolve_canonical_work_lem works id).1 r).1 c in
    let (g, run, is) = collect_merge_group_lem works r w keyed f free in
    elim (group_owned-Decides editions entries g) [
      | inl (p, o) ↦
          let (x, m, q) = (OwnedIn-iff editions entries g).0 o in
          inl (rw (canonical, run, p), (x, (is x).0 m, q))
      | inr (p, n) ↦ inr (
        rw (canonical, run, p),
        λ (x, k, q). n ((OwnedIn-iff editions entries g).1 (x, (is x).1 k, q)),
      )
    ]
