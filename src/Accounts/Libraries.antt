-- ===== src/Accounts/Libraries.antt =====
-- internal/domain/library_aggregate.go: libraries and memberships. `len` of a Go string counts
-- bytes.
mod Limits
mod Samples
use alexandryn.Base.{
  ℕ, Bool, not, ◌||◌, ltb, if◌then◌else◌, Text, byte_len, trim_space, is_empty, is_blank,
  invalid_input, error, Result, ok, err, ◌>>=◌, ◌>>◌, reject_if,
}
use alexandryn.Accounts.Users.{Role, role_valid}

pub record Library : Type 0 where
  pub id : Text
  pub name : Text
  pub description : Text
  pub allow_reader_uploads : Bool
  pub created_at : ℕ
  pub updated_at : ℕ

-- name == "" || len(name) > 100
abbrev name_bad : Text → Bool
name_bad name = is_empty name || ltb 100 (byte_len name)

pub new_library : Text → Text → Text → Bool → ℕ → ℕ → Result Library
new_library id untrimmed description allow_reader_uploads created_at updated_at =
    let name = trim_space untrimmed in
    do
      reject_if (is_blank id) (error invalid_input)
      reject_if (name_bad name) (error invalid_input)
      reject_if (ltb 2000 (byte_len description)) (error invalid_input)
      ok (record {
        id = id;
        name = name;
        description = description;
        allow_reader_uploads = allow_reader_uploads;
        created_at = created_at;
        updated_at = updated_at;
      })

pub rename : Library → Text → ℕ → Library × Result (Unit {0})
rename l untrimmed now =
    let new_name = trim_space untrimmed in
    if name_bad new_name
    then (l, err (error invalid_input))
    else (record l { name = new_name; updated_at = now }, ok tt)

pub set_description : Library → Text → ℕ → Library × Result (Unit {0})
set_description l desc now =
    if ltb 2000 (byte_len desc)
    then (l, err (error invalid_input))
    else (record l { description = desc; updated_at = now }, ok tt)

pub set_allow_reader_uploads : Library → Bool → ℕ → Library
set_allow_reader_uploads l allow now = record l { allow_reader_uploads = allow; updated_at = now }

pub record LibraryMembership : Type 0 where
  pub id : Text
  pub library_id : Text
  pub user_id : Text
  pub role : Role
  pub created_at : ℕ

new_library_membership : Text → Text → Text → Role → ℕ → Result LibraryMembership
new_library_membership id library_id user_id role created_at = do
  reject_if (is_blank id) (error invalid_input)
  reject_if (is_blank library_id) (error invalid_input)
  reject_if (is_blank user_id) (error invalid_input)
  reject_if (not (role_valid role)) (error invalid_input)
  ok (record {
    id = id;
    library_id = library_id;
    user_id = user_id;
    role = role;
    created_at = created_at;
  })

set_member_role : LibraryMembership → Role → LibraryMembership × Result (Unit {0})
set_member_role m r =
    if not (role_valid r) then (m, err (error invalid_input)) else (record m { role = r }, ok tt)
