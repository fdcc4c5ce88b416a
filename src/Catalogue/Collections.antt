-- ===== src/Catalogue/Collections.antt =====
-- internal/domain/collection.go. RemoveMember filters in place; a slice that Members returned before
-- is not modelled.
mod Members
mod Samples
use alexandryn.Base.{
  ℕ, ◌+◌, not, List, [], ◌∷◌, ◌++◌, if◌then◌else◌, filter, any, Text, text_eq, Result, ok, ◌>>=◌,
  ◌>>◌,
}
use alexandryn.Catalogue.Texts.{validate_bounded_text}

pub record CollectionMember : Type 0 where
  pub work_id : Text
  pub added_at : ℕ

pub record Collection : Type 0 where
  pub id : Text
  pub name : Text
  pub members : List CollectionMember

new_collection : Text → Text → Result Collection
new_collection id name = do
  validate_bounded_text name 100
  ok (record { id = id; name = name; members = [] })

pub add_member : Collection → Text → ℕ → Collection
add_member c work_id added_at =
    if any (λ m. text_eq m.work_id work_id) c.members then c else record c {
      members = c.members ++ (record { work_id = work_id; added_at = added_at } ∷ []);
    }

pub remove_member : Collection → Text → Collection
remove_member c work_id = record c {
  members = filter (λ m. not (text_eq m.work_id work_id)) c.members;
}
