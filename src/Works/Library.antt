-- ===== src/Works/Library.antt =====
-- internal/domain/library_entry.go, library_service.go and is_in_library.go: which editions are
-- owned, and which works are thereby in the library. The stores are those of
-- internal/persistence/postgres/edition_repository.go and library_entry_repository.go: the lists of
-- their rows, for one library. Failures of the driver are not modelled, so FindByEdition fails only
-- as NotFound.
pub mod Ownership
mod Entries
mod Samples
use alexandryn.Base.{
  ℕ, ◌+◌, Bool, true, false, not, Option, none, some, List, [], ◌∷◌, ◌++◌, if◌then◌else◌, filter,
  any, Text, text_eq, Category, not_found, conflict, Error, error, Result, ok, err,
}
use alexandryn.Merging.Run.{Run, ◌>>=◌}
use alexandryn.Works.{Work, WorkStore}
use alexandryn.Works.Resolve.{resolve_canonical_work, collect_merge_group}

-- Of an edition, what these operations read.
pub record Edition : Type 0 where
  pub id : Text
  pub work_id : Text

pub record LibraryEntry : Type 0 where
  pub id : Text
  pub edition_id : Text
  pub added_at : ℕ

pub find_edition : List Edition → Text → Result Edition
find_edition [] id = err (error not_found)
find_edition (e ∷ editions) id = if text_eq e.id id then ok e else find_edition editions id

pub find_by_work : List Edition → Text → List Edition
unfolding filter
find_by_work editions work_id = filter (λ e. text_eq e.work_id work_id) editions

pub find_by_edition : List LibraryEntry → Text → Result LibraryEntry
find_by_edition [] edition_id = err (error not_found)
find_by_edition (l ∷ entries) edition_id =
    if text_eq l.edition_id edition_id then ok l else find_by_edition entries edition_id

-- Save: INSERT … ON CONFLICT (library_id, edition_id) DO NOTHING, and a conflict if no row was
-- inserted; the primary key refuses an id that is there.
pub save_entry : List LibraryEntry → LibraryEntry → Result (List LibraryEntry)
unfolding any
save_entry entries l =
    if any (λ k. text_eq k.edition_id l.edition_id) entries
    then err (error conflict)
    else if any (λ k. text_eq k.id l.id) entries
    then err (error conflict)
    else ok (entries ++ (l ∷ []))

pub delete_by_edition : List LibraryEntry → Text → List LibraryEntry
unfolding filter
delete_by_edition entries edition_id = filter (λ l. not (text_eq l.edition_id edition_id)) entries

abbrev is_not_found : Error → Bool
is_not_found e = elim e.category [ Category.not_found ↦ true | _ ↦ false ]

-- What AddEntry returns: the entry, and whether a LibraryEntryAdded event comes with it.
pub record Added : Type 0 where
  pub entry : LibraryEntry
  pub event : Bool

abbrev pub new_entry : Text → ℕ → LibraryEntry
new_entry edition_id added_at = record {
  id = edition_id;
  edition_id = edition_id;
  added_at = added_at;
}

-- AddEntry after its Save.
abbrev saved_as :
    List LibraryEntry → LibraryEntry → Result (List LibraryEntry) → List LibraryEntry × Result Added
saved_as entries l (ok after) = (after, ok (record { entry = l; event = true }))
saved_as entries l (err e) = (entries, err e)

-- The branches on FindByEdition's answer.
add_missing : List LibraryEntry → Text → ℕ → Result LibraryEntry → List LibraryEntry × Result Added
unfolding save_entry
add_missing entries edition_id added_at (ok existing) =
    (entries, ok (record { entry = existing; event = false }))
add_missing entries edition_id added_at (err e) =
    let l = new_entry edition_id added_at in
    if is_not_found e then saved_as entries l (save_entry entries l) else (entries, err e)

abbrev if_edition {ℓ} : {A : Type ℓ} → Result Edition → (Error → A) → A → A
if_edition (ok e) f a = a
if_edition (err e) f a = f e

pub add_entry : List Edition → List LibraryEntry → Text → ℕ → List LibraryEntry × Result Added
unfolding add_missing
add_entry editions entries edition_id added_at =
    if_edition (find_edition editions edition_id) (λ e. (entries, err e))
      (add_missing entries edition_id added_at (find_by_edition entries edition_id))

-- The result is the id of the entry removed, as the event carries it, if there was one.
remove_found :
    List LibraryEntry → Text → Result LibraryEntry → List LibraryEntry × Result (Option Text)
remove_found entries edition_id (ok existing) =
    (delete_by_edition entries edition_id, ok (some existing.id))
remove_found entries edition_id (err e) =
    if is_not_found e then (entries, ok none) else (entries, err e)

pub remove_entry : List LibraryEntry → Text → List LibraryEntry × Result (Option Text)
unfolding remove_found
remove_entry entries edition_id =
    remove_found entries edition_id (find_by_edition entries edition_id)

-- The inner loop of IsInLibrary; `later` is the loop over the rest.
owned_next : Result LibraryEntry → Result Bool → Result Bool
owned_next (ok l) later = ok true
owned_next (err e) later = if is_not_found e then later else err e

pub editions_owned : List LibraryEntry → List Edition → Result Bool → Result Bool
unfolding owned_next
editions_owned entries [] later = later
editions_owned entries (e ∷ editions) later =
    owned_next (find_by_edition entries e.id) (editions_owned entries editions later)

pub group_owned : List Edition → List LibraryEntry → List Work → Result Bool
unfolding editions_owned find_by_work
group_owned editions entries [] = ok false
group_owned editions entries (w ∷ group) =
    editions_owned entries (find_by_work editions w.id) (group_owned editions entries group)

pub is_in_library : WorkStore → List Edition → List LibraryEntry → Text → Run Bool
unfolding group_owned
is_in_library works editions entries work_id = do
  canonical ← resolve_canonical_work works work_id
  group ← collect_merge_group works canonical
  some (group_owned editions entries group)
