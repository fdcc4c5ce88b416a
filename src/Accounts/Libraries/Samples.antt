-- ===== src/Accounts/Libraries/Samples.antt =====
-- A library and its edits.
use alexandryn.Base.{◌≡◌, refl, true, false, [], ◌∷◌, lit, byte_len, trim_space, is_blank, ok}
use alexandryn.Accounts.Libraries.{Library, new_library}
use alexandryn.Accounts.Libraries.Limits.{
  renaming, describing, allowing, edits, IsWithin, new_library-IsWithin,
}

abbrev home : Library
home = record {
  id = lit "l1";
  name = lit "Home";
  description = [];
  allow_reader_uploads = false;
  created_at = 1;
  updated_at = 1;
}

home-made : new_library (lit "l1") (lit " Home ") [] false 1 1 ≡ ok home
unfolding new_library is_blank trim_space byte_len
home-made = refl

new_library-IsWithin_run :
    IsWithin (edits home (renaming (lit " ") 2 ∷ describing (lit "All") 3 ∷ allowing true 4 ∷ []))
new_library-IsWithin_run =
    new_library-IsWithin (lit "l1") (lit " Home ") [] false 1 1 home
      (renaming (lit " ") 2 ∷ describing (lit "All") 3 ∷ allowing true 4 ∷ []) home-made
