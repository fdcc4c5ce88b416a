-- ===== src/Works/Library/Samples.antt =====
-- The library on the sample catalogue: an edition of `emma2` is owned.
use alexandryn.Base.{
  ◌≡◌, refl, ◌⊎◌, Bool, true, false, none, some, List, [], ◌∷◌, if◌then◌else◌, Text, lit, text_eq,
  not_found, error, ok, err,
}
use alexandryn.Merging.Run.{pure}
use alexandryn.Works.Samples.{row, shelf, emma, emma2, emma2-canonical, emma-found, shelf-Distinct}
use alexandryn.Works.Resolve.Canonical.{IsCanonicalOf}
use alexandryn.Works.Library.{
  Edition, LibraryEntry, new_entry, find_edition, find_by_edition, add_entry, remove_entry,
  is_in_library,
}
use alexandryn.Works.Library.Ownership.{OwnedOf, is_in_library_lem}
use alexandryn.Works.Library.Entries.{IsKeyed, add_entry_lem, remove_entry_lem}

abbrev hardback : Edition
hardback = record { id = lit "hardback"; work_id = emma2 }

abbrev paperback : Edition
paperback = record { id = lit "paperback"; work_id = emma }

abbrev editions : List Edition
editions = hardback ∷ paperback ∷ []

abbrev owned_entries : List LibraryEntry
owned_entries = new_entry (lit "hardback") 5 ∷ []

is_in_library_lem_example :
    let owned = (x : Text) × IsCanonicalOf shelf x emma × OwnedOf editions owned_entries x in
    ((is_in_library shelf editions owned_entries emma2 ≡ pure true) × owned)
    ⊎ ((is_in_library shelf editions owned_entries emma2 ≡ pure false) × (owned → ⊥))
is_in_library_lem_example =
    is_in_library_lem shelf editions owned_entries emma2 emma (row emma none []) shelf-Distinct
      emma2-canonical emma-found refl

add_entry_lem_example :
    let after = (add_entry editions owned_entries (lit "paperback") 9).0 in
    (l : LibraryEntry) × (event : Bool) × ((add_entry editions owned_entries (lit "paperback") 9).1
      ≡ ok (record { entry = l; event = event }))
    × IsKeyed after
    × ((j : Text)
        → find_by_edition after j
          ≡ (if text_eq (lit "paperback") j then ok l else find_by_edition owned_entries j))
    × (add_entry editions after (lit "paperback") 10
        ≡ (after, ok (record { entry = l; event = false })))
add_entry_lem_example =
    add_entry_lem editions owned_entries (lit "paperback") paperback 9 10 (refl, tt)
      (unfold find_edition text_eq in refl)

remove_entry_lem_run :
    let after = (remove_entry owned_entries (lit "hardback")).0 in
    ((j : Text)
      → find_by_edition after j ≡ (
          if text_eq (lit "hardback") j
          then err (error not_found)
          else find_by_edition owned_entries j))
    × (((l : LibraryEntry) × (find_by_edition owned_entries (lit "hardback") ≡ ok l)
          × ((remove_entry owned_entries (lit "hardback")).1 ≡ ok (some l.id)))
        ⊎ ((find_by_edition owned_entries (lit "hardback") ≡ err (error not_found))
            × (remove_entry owned_entries (lit "hardback") ≡ (owned_entries, ok none))))
remove_entry_lem_run = remove_entry_lem owned_entries (lit "hardback")
