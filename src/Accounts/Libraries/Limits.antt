-- ===== src/Accounts/Libraries/Limits.antt =====
-- The limits on a library's texts, over every sequence of edits.
use alexandryn.Base.{
  ℕ, ◌≤◌, ◌≡◌, Bool, false, List, [], ◌∷◌, arith, Text, byte_len, is_empty, is_blank, Result, ok,
}
use alexandryn.Accounts.Libraries.{
  Library, new_library, rename, set_description, set_allow_reader_uploads,
}

pub data Edit : Type 0 where
  renaming : Text → ℕ → Edit
  describing : Text → ℕ → Edit
  allowing : Bool → ℕ → Edit

edit : Library → Edit → Library × Result (Unit {0})
edit l (renaming name now) = rename l name now
edit l (describing desc now) = set_description l desc now
edit l (allowing allow now) = (set_allow_reader_uploads l allow now, ok tt)

pub edits : Library → List Edit → Library
edits l [] = l
edits l (e ∷ es) = edits (edit l e).0 es

pub record IsWithin (l : Library) : Type 0 where
  pub identified : is_blank l.id ≡ false
  pub named : is_empty l.name ≡ false
  pub name_short : byte_len l.name ≤ 100
  pub description_short : byte_len l.description ≤ 2000

edit-IsWithin : (l : Library) (e : Edit) → IsWithin l → IsWithin (edit l e).0
unfolding edit rename set_description set_allow_reader_uploads
edit-IsWithin l (renaming name now) w = ground arith
edit-IsWithin l (describing desc now) w = ground arith
edit-IsWithin l (allowing allow now) w = ground arith

edits-IsWithin : (l : Library) (es : List Edit) → IsWithin l → IsWithin (edits l es)
unfolding edits
edits-IsWithin l [] w = w
edits-IsWithin l (e ∷ es) w = edits-IsWithin (edit l e).0 es (edit-IsWithin l e w)

-- A library that NewLibrary returns keeps a name of 1 to 100 bytes and a description of at most 2000
-- bytes under every sequence of edits, the refused ones included.
pub new_library-IsWithin :
    (id name description : Text) (allow : Bool) (created_at updated_at : ℕ) (l : Library)
    (es : List Edit)
    → new_library id name description allow created_at updated_at ≡ ok l
    → IsWithin (edits l es)
unfolding new_library
new_library-IsWithin id name description allow created_at updated_at l es h =
    edits-IsWithin l es (ground arith)
