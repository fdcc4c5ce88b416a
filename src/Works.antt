-- ===== src/Works.antt =====
-- Works and their store: internal/domain/work.go, and WorkRepository of
-- internal/domain/repository.go as internal/persistence/postgres/work_repository.go implements it.
-- The table is the list of its rows; a write replaces the row with the same id or adds one.
-- Failures of the database driver are not modelled.
pub mod Resolve
pub mod Merge
pub mod Containment
pub mod Library
mod Samples
use alexandryn.Base.{
  ◌-◌, ◌≡◌, refl, Bool, true, false, Option, none, some, List, [], ◌∷◌, map, arith, if◌then◌else◌,
  filter, any, Text, text_eq, text_eq_iff, text_eq_refl, not_found, error, Result, ok, err, ◌>>=◌,
  ◌>>◌,
}
use alexandryn.Merging.Chain.{member}

pub record Work : Type 0 where
  pub id : Text
  pub title : Text
  pub subtitle : Text
  pub authors : List Text
  pub subjects : List Text
  pub original_language : Option Text
  pub external_references : List (Text × Text)
  pub merged_into : Option Text
  pub contains : List Text

abbrev pub WorkStore : Type 0
WorkStore = List Work

-- FindByID
pub find_by_id : WorkStore → Text → Result Work
find_by_id [] id = err (error not_found)
find_by_id (w ∷ works) id = if text_eq w.id id then ok w else find_by_id works id

abbrev pub is_merged_into : Text → Option Text → Bool
is_merged_into canonical none = false
is_merged_into canonical (some t) = text_eq t canonical

-- FindMergedInto: one hop.
pub find_merged_into : WorkStore → Text → List Work
find_merged_into works canonical = filter (λ w. is_merged_into canonical w.merged_into) works

-- Save
pub save : WorkStore → Work → WorkStore
save [] w = w ∷ []
save (v ∷ works) w = if text_eq v.id w.id then w ∷ works else v ∷ save works w

abbrev pub ids : WorkStore → List Text
ids = map (λ w. w.id)

-- FindByID, and then MergedInto of what it found.
pub merged_into_of : WorkStore → Text → Result (Option Text)
merged_into_of works id = do w ← find_by_id works id; ok w.merged_into

-- A row that is found bears the id that was asked for.
pub find_by_id-id : (works : WorkStore) (a : Text) (w : Work) → find_by_id works a ≡ ok w → w.id ≡ a
unfolding find_by_id
find_by_id-id [] a w h = cc
find_by_id-id (v ∷ works) a w h = ground (arith, text_eq_iff v.id a, find_by_id-id works a w)

pub find_by_id-save :
    (works : WorkStore) (w : Work) (a : Text)
    → find_by_id (save works w) a ≡ (if text_eq w.id a then ok w else find_by_id works a)
unfolding find_by_id save
find_by_id-save [] w a = refl
find_by_id-save (v ∷ works) w a = ground (
  arith,
  text_eq_iff v.id w.id,
  text_eq_iff v.id a,
  text_eq_iff w.id a,
  find_by_id-save works w a,
)

-- Saving the row that is there changes nothing.
pub save_self :
    (works : WorkStore) (a : Text) (w : Work) → find_by_id works a ≡ ok w → save works w ≡ works
unfolding find_by_id save
save_self [] a w h = cc
save_self (v ∷ works) a w h = ground (
  arith,
  text_eq_iff v.id a,
  text_eq_iff v.id w.id,
  text_eq_refl w.id,
  find_by_id-id works a w,
  save_self works a w,
)

-- The second of two writes of one row is the one that stays.
pub save-save :
    (works : WorkStore) (v w : Work) → v.id ≡ w.id → save (save works v) w ≡ save works w
unfolding save
save-save [] v w e = rw (e, text_eq_refl w.id)
save-save (u ∷ works) v w e = ground (
  arith,
  text_eq_iff u.id v.id,
  text_eq_iff u.id w.id,
  text_eq_iff v.id w.id,
  save-save works v w,
)

pub merged_into_of-found :
    (works : WorkStore) (a : Text) (o : Option Text)
    → merged_into_of works a ≡ ok o
    → member a (ids works) ≡ true
unfolding merged_into_of find_by_id member any
merged_into_of-found [] a o h = cc
merged_into_of-found (w ∷ works) a o h = ground (arith, merged_into_of-found works a o)
