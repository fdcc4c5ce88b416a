-- ===== src/Accounts/Users/Samples.antt =====
-- A user and two changes of role.
use alexandryn.Base.{ℕ, ◌≡◌, refl, true, [], ◌∷◌, all, any, lit, byte_len, trim_space, is_blank, ok}
use alexandryn.Accounts.Users.{
  admin, reader, other_role, role_valid, username_matches, User, normal_email, to_lower, email_bad,
  email_matches, is_local_char, is_alnum, labels_match, label_matches, ends_alnum, cut, new_user,
}
use alexandryn.Accounts.Users.Validity.{IsValidUser, set_roles, new_user-valid}

abbrev same_case : ℕ → ℕ
same_case r = r

abbrev ada : User
ada = record {
  id = lit "u1";
  username = lit "ada";
  email = lit "ada@example.org";
  role = reader;
  created_at = 1;
  updated_at = 1;
}

ada-made : new_user same_case (lit "u1") (lit " ada ") (lit "Ada@Example.org") reader 1 1 ≡ ok ada
unfolding new_user is_blank trim_space normal_email to_lower email_bad email_matches is_local_char
    is_alnum labels_match label_matches ends_alnum cut all any byte_len role_valid username_matches
ada-made = refl

-- A domain without a dot is refused.
no_dot : email_bad (lit "ada@example") ≡ true
unfolding email_bad email_matches is_local_char is_alnum labels_match label_matches ends_alnum cut
    all any byte_len
no_dot = refl

new_user-valid_run :
    IsValidUser (set_roles ada ((other_role (lit "owner"), 2) ∷ (admin, 3) ∷ []))
    × (ada.username ≡ trim_space (lit " ada "))
    × (ada.email ≡ normal_email same_case (lit "Ada@Example.org"))
new_user-valid_run =
    new_user-valid same_case (lit "u1") (lit " ada ") (lit "Ada@Example.org") reader 1 1 ada
      ((other_role (lit "owner"), 2) ∷ (admin, 3) ∷ []) ada-made
