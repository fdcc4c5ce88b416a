-- ===== src/Accounts/Users/Validity.antt =====
-- What holds of every user, from the constructor on.
use alexandryn.Base.{ℕ, ◌≡◌, true, false, List, [], ◌∷◌, arith, Text, trim_space, is_blank, ok}
use alexandryn.Accounts.Users.{
  Role, role_valid, username_matches, User, normal_email, email_bad, new_user, set_role,
}

-- What a stored user must satisfy.
pub record IsValidUser (u : User) : Type 0 where
  pub named : is_blank u.id ≡ false
  pub username_fits : username_matches u.username ≡ true
  pub email_fits : email_bad u.email ≡ false
  pub role_known : role_valid u.role ≡ true

-- The calls of SetRole, each with its time; a refused one leaves the user.
pub set_roles : User → List (Role × ℕ) → User
set_roles u [] = u
set_roles u (c ∷ cs) = set_roles (set_role u c.0 c.1).0 cs

set_role-IsValidUser :
    (u : User) (r : Role) (now : ℕ) → IsValidUser u → IsValidUser (set_role u r now).0
unfolding set_role
set_role-IsValidUser u r now v = ground arith

set_roles-IsValidUser :
    (u : User) (cs : List (Role × ℕ)) → IsValidUser u → IsValidUser (set_roles u cs)
unfolding set_roles
set_roles-IsValidUser u [] v = v
set_roles-IsValidUser u (c ∷ cs) v =
    set_roles-IsValidUser (set_role u c.0 c.1).0 cs (set_role-IsValidUser u c.0 c.1 v)

-- A user that NewUser returns is valid, and stays so whatever roles are set, known or not; its name
-- is the trimmed one and its address the normalized one.
pub new_user-valid :
    (lower : ℕ → ℕ) (id username address : Text) (role : Role) (created_at updated_at : ℕ)
    (u : User) (cs : List (Role × ℕ))
    → new_user lower id username address role created_at updated_at ≡ ok u
    → IsValidUser (set_roles u cs)
      × (u.username ≡ trim_space username)
      × (u.email ≡ normal_email lower address)
unfolding new_user
new_user-valid lower id username address role created_at updated_at u cs h =
    (set_roles-IsValidUser u cs (ground arith), ground arith, ground arith)
