-- ===== src/Works/Library/Entries.antt =====
-- What AddEntry and RemoveEntry do to the entries.
use alexandryn.Base.{
  ℕ, ◌≡◌, refl, ap, ◌∙◌, subst, ◌⊎◌, inl, inr, Bool, true, false, none, some, List, [], ◌∷◌, ◌++◌,
  arith, any, if◌then◌else◌, Bool-cases, Text, text_eq, text_eq_iff, text_eq_refl, not_found, Error,
  error, Result, ok, err,
}
use alexandryn.Works.Library.{
  add_missing, Edition, LibraryEntry, new_entry, find_edition, find_by_edition, save_entry,
  delete_by_edition, add_entry, remove_entry,
}

-- Every entry has the id of its edition, as AddEntry gives it.
abbrev pub IsKeyed : List LibraryEntry → Type 0
IsKeyed [] = Unit
IsKeyed (l ∷ entries) = (l.id ≡ l.edition_id) × IsKeyed entries

-- Without a row for the edition there is none with its id either, where ids are edition ids.
none_for :
    (entries : List LibraryEntry) (a : Text) (e : Error)
    → IsKeyed entries
    → find_by_edition entries a ≡ err e
    → (any (λ k. text_eq k.edition_id a) entries ≡ false)
      × (any (λ k. text_eq k.id a) entries ≡ false)
unfolding find_by_edition any
none_for [] a e k h = (refl, refl)
none_for (l ∷ entries) a e (k, ks) h = ground (arith, none_for entries a e ks)

find_by_edition-append :
    (entries : List LibraryEntry) (a j : Text) (at : ℕ)
    → any (λ k. text_eq k.edition_id a) entries ≡ false
    → find_by_edition (entries ++ (new_entry a at ∷ [])) j
      ≡ (if text_eq a j then ok (new_entry a at) else find_by_edition entries j)
unfolding find_by_edition any
find_by_edition-append [] a j at h = refl
find_by_edition-append (l ∷ entries) a j at h = ground (
  arith,
  text_eq_iff l.edition_id a,
  text_eq_iff l.edition_id j,
  text_eq_iff a j,
  find_by_edition-append entries a j at,
)

find_by_edition-delete :
    (entries : List LibraryEntry) (a j : Text)
    → find_by_edition (delete_by_edition entries a) j
      ≡ (if text_eq a j then err (error not_found) else find_by_edition entries j)
unfolding find_by_edition delete_by_edition
find_by_edition-delete [] a j = ground arith
find_by_edition-delete (l ∷ entries) a j = ground (
  arith,
  text_eq_iff l.edition_id a,
  text_eq_iff l.edition_id j,
  text_eq_iff a j,
  find_by_edition-delete entries a j,
)

IsKeyed-append :
    (entries : List LibraryEntry) (a : Text) (at : ℕ)
    → IsKeyed entries
    → IsKeyed (entries ++ (new_entry a at ∷ []))
IsKeyed-append [] a at k = (refl, tt)
IsKeyed-append (l ∷ entries) a at (k, ks) = (k, IsKeyed-append entries a at ks)

Result-cases :
    (r : Result LibraryEntry) → ((l : LibraryEntry) × (r ≡ ok l)) ⊎ ((e : Error) × (r ≡ err e))
Result-cases (ok l) = inl (l, refl)
Result-cases (err e) = inr (e, refl)

missing :
    (entries : List LibraryEntry) (a : Text) (e : Error)
    → find_by_edition entries a ≡ err e
    → e ≡ error not_found
unfolding find_by_edition
missing [] a e h = cc h
missing (l ∷ entries) a e h = elim (Bool-cases (text_eq l.edition_id a)) [
  | inl same ↦ cc (rw (same, find_by_edition) at h)
  | inr other ↦ missing entries a e (rw (other, find_by_edition) at h)
]

-- Where every entry has the id of its edition, AddEntry for a stored edition returns an entry that
-- is found for it from then on, changes no other edition's entry, and once more is a no-op without
-- an event that returns the same entry.
pub add_entry_lem :
    (editions : List Edition) (entries : List LibraryEntry) (a : Text) (e : Edition) (at later : ℕ)
    → IsKeyed entries
    → find_edition editions a ≡ ok e
    → let after = (add_entry editions entries a at).0 in
      (l : LibraryEntry) × (event : Bool) × ((add_entry editions entries a at).1
        ≡ ok (record { entry = l; event = event }))
      × IsKeyed after
      × ((j : Text)
          → find_by_edition after j ≡ (if text_eq a j then ok l else find_by_edition entries j))
      × (add_entry editions after a later ≡ (after, ok (record { entry = l; event = false })))
unfolding add_entry add_missing save_entry
add_entry_lem editions entries a e at later k f = elim (Result-cases (find_by_edition entries a)) [
  | inl (l, g) ↦
      rw (f, g)
        (
          l,
          false,
          refl,
          k,
          λ j. elim (Bool-cases (text_eq a j)) [
            | inl same ↦ rw same (
                subst (λ (x : Text). find_by_edition entries x ≡ ok l) ((text_eq_iff a j).0 same) g)
            | inr other ↦ rw other
          ],
          rw g,
        )
  | inr (x, g) ↦
      let nf : find_by_edition entries a ≡ err (error not_found) =
        g ∙ ap (λ (y : Error). err y) (missing entries a x g) in
      let (fresh_edition, fresh_id) = none_for entries a x k g in
      let found = λ (j : Text). find_by_edition-append entries a j at fresh_edition in
      rw (f, nf, fresh_edition, fresh_id)
        (
          new_entry a at,
          true,
          refl,
          IsKeyed-append entries a at k,
          found,
          rw (found a, text_eq_refl a),
        )
]

-- RemoveEntry leaves no entry for the edition and every other edition's as it was; it returns an
-- event's id exactly if there was an entry, and never an error.
pub remove_entry_lem :
    (entries : List LibraryEntry) (a : Text)
    → let after = (remove_entry entries a).0 in
      ((j : Text)
        → find_by_edition after j
          ≡ (if text_eq a j then err (error not_found) else find_by_edition entries j))
      × (((l : LibraryEntry) × (find_by_edition entries a ≡ ok l)
            × ((remove_entry entries a).1 ≡ ok (some l.id)))
          ⊎ ((find_by_edition entries a ≡ err (error not_found))
              × (remove_entry entries a ≡ (entries, ok none))))
unfolding remove_entry
remove_entry_lem entries a = elim (Result-cases (find_by_edition entries a)) [
  | inl (l, g) ↦ rw g (λ j. find_by_edition-delete entries a j, inl (l, refl, refl))
  | inr (x, g) ↦
      let nf : find_by_edition entries a ≡ err (error not_found) =
        g ∙ ap (λ (y : Error). err y) (missing entries a x g) in
      rw nf (
        λ j. elim (Bool-cases (text_eq a j)) [
          | inl same ↦ rw same (
              subst (λ (y : Text). find_by_edition entries y ≡ err (error not_found))
                ((text_eq_iff a j).0 same) nf)
          | inr other ↦ rw other
        ],
        inr (refl, refl),
      )
]
