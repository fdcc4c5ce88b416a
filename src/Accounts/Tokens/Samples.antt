-- ===== src/Accounts/Tokens/Samples.antt =====
-- Tokens at work.
use alexandryn.Base.{
  ℕ, ◌<◌, ◌≡◌, refl, ◌↔◌, true, false, none, all, any, lit, byte_len, trim_space, is_blank, ok,
}
use alexandryn.Accounts.Users.{
  reader, role_valid, normal_email, to_lower, email_bad, email_matches, is_local_char, is_alnum,
  labels_match, label_matches, ends_alnum, cut,
}
use alexandryn.Accounts.Tokens.{
  RefreshToken, new_refresh_token, is_active, revoke, PasswordResetToken, new_password_reset_token,
  reset_valid, mark_reset_used, LibraryInvitation, new_library_invitation, invitation_valid,
  mark_invitation_used,
}
use alexandryn.Accounts.Tokens.Spending.{new_refresh_token-is_active, single_use}

abbrev same_case : ℕ → ℕ
same_case r = r

abbrev login : RefreshToken
login = record {
  id = lit "r1";
  user_id = lit "u1";
  token_hash = lit "h";
  expires_at = 500;
  revoked_at = none;
  created_at = 100;
}

login-made : new_refresh_token (lit "r1") (lit "u1") (lit "h") 500 100 ≡ ok login
unfolding new_refresh_token is_blank trim_space
login-made = refl

new_refresh_token-is_active_run :
    ((now : ℕ) → (is_active login now ≡ true) ↔ (now < 500))
    × ((at again now : ℕ)
        → (is_active (revoke login at) now ≡ false)
          × (is_active (revoke (revoke login at) again) now ≡ false))
new_refresh_token-is_active_run =
    new_refresh_token-is_active (lit "r1") (lit "u1") (lit "h") 500 100 login login-made

abbrev reset : PasswordResetToken
reset = record {
  id = lit "p1";
  user_id = lit "u1";
  token_hash = lit "h";
  expires_at = 500;
  used_at = none;
  created_at = 100;
}

reset-made : new_password_reset_token (lit "p1") (lit "u1") (lit "h") 500 100 ≡ ok reset
unfolding new_password_reset_token is_blank trim_space
reset-made = refl

abbrev invitation : LibraryInvitation
invitation = record {
  id = lit "p1";
  library_id = lit "l1";
  email = lit "ada@example.org";
  role = reader;
  token_hash = lit "h";
  created_by = lit "u1";
  expires_at = 500;
  used_at = none;
  created_at = 100;
}

invitation-made :
    new_library_invitation same_case
      (lit "p1")
      (lit "l1")
      (lit " Ada@Example.org ")
      reader
      (lit "h")
      (lit "u1")
      500
      100
    ≡ ok invitation
unfolding new_library_invitation is_blank trim_space normal_email to_lower email_bad email_matches
    is_local_char is_alnum labels_match label_matches ends_alnum cut all any byte_len role_valid
invitation-made = refl

single_use_run :
    ((reset_valid reset 200 ≡ true) ↔ (200 < 500))
    × ((invitation_valid invitation 200 ≡ true) ↔ (200 < 500))
    × (reset_valid (mark_reset_used reset 150) 200 ≡ false)
    × (invitation_valid (mark_invitation_used invitation 150) 200 ≡ false)
single_use_run =
    single_use same_case (lit "p1") (lit "u1") (lit "l1") (lit " Ada@Example.org ") (lit "h")
      (lit "u1") reader 500 100 reset invitation reset-made invitation-made 150 200
