-- ===== src/Accounts/Tokens.antt =====
-- internal/domain/auth.go: refresh tokens, TOTP settings and password reset tokens; and the
-- invitations of internal/domain/library_aggregate.go. All of them expire, and are spent by a
-- timestamp.
mod Spending
mod Samples
use alexandryn.Base.{
  ℕ, Bool, true, false, not, ◌&&◌, Option, none, some, List, ltb, Text, is_empty, is_blank,
  invalid_input, error, Result, ok, ◌>>=◌, ◌>>◌, reject_if,
}
use alexandryn.Accounts.Users.{Role, role_valid, normal_email, email_bad}

pub record RefreshToken : Type 0 where
  pub id : Text
  pub user_id : Text
  pub token_hash : Text
  pub expires_at : ℕ
  pub revoked_at : Option ℕ
  pub created_at : ℕ

unfoldable pub new_refresh_token : Text → Text → Text → ℕ → ℕ → Result RefreshToken
new_refresh_token id user_id token_hash expires_at created_at = do
  reject_if (is_blank id) (error invalid_input)
  reject_if (is_blank user_id) (error invalid_input)
  reject_if (is_blank token_hash) (error invalid_input)
  ok (record {
    id = id;
    user_id = user_id;
    token_hash = token_hash;
    expires_at = expires_at;
    revoked_at = none;
    created_at = created_at;
  })

abbrev pub is_nil : Option ℕ → Bool
is_nil none = true
is_nil (some t) = false

unfoldable pub is_active : RefreshToken → ℕ → Bool
is_active r now = is_nil r.revoked_at && ltb now r.expires_at

unfoldable pub revoke : RefreshToken → ℕ → RefreshToken
revoke r now = record r { revoked_at = some now }

pub record TotpSettings : Type 0 where
  pub user_id : Text
  pub encrypted_secret : List ℕ
  pub recovery_code_hashes : List Text
  pub enabled : Bool
  pub confirmed_at : Option ℕ
  pub created_at : ℕ

new_totp_settings : Text → List ℕ → List Text → Bool → Option ℕ → ℕ → Result TotpSettings
new_totp_settings user_id encrypted_secret recovery_code_hashes enabled confirmed_at created_at = do
  reject_if (is_blank user_id) (error invalid_input)
  reject_if (is_empty encrypted_secret) (error invalid_input)
  ok (record {
    user_id = user_id;
    encrypted_secret = encrypted_secret;
    recovery_code_hashes = recovery_code_hashes;
    enabled = enabled;
    confirmed_at = confirmed_at;
    created_at = created_at;
  })

confirm : TotpSettings → ℕ → TotpSettings
confirm t now = record t { enabled = true; confirmed_at = some now }

disable : TotpSettings → TotpSettings
disable t = record t { enabled = false; confirmed_at = none }

pub record PasswordResetToken : Type 0 where
  pub id : Text
  pub user_id : Text
  pub token_hash : Text
  pub expires_at : ℕ
  pub used_at : Option ℕ
  pub created_at : ℕ

pub new_password_reset_token : Text → Text → Text → ℕ → ℕ → Result PasswordResetToken
new_password_reset_token id user_id token_hash expires_at created_at = do
  reject_if (is_blank id) (error invalid_input)
  reject_if (is_blank user_id) (error invalid_input)
  reject_if (is_blank token_hash) (error invalid_input)
  ok (record {
    id = id;
    user_id = user_id;
    token_hash = token_hash;
    expires_at = expires_at;
    used_at = none;
    created_at = created_at;
  })

pub reset_valid : PasswordResetToken → ℕ → Bool
reset_valid p now = is_nil p.used_at && ltb now p.expires_at

pub mark_reset_used : PasswordResetToken → ℕ → PasswordResetToken
mark_reset_used p now = record p { used_at = some now }

pub record LibraryInvitation : Type 0 where
  pub id : Text
  pub library_id : Text
  pub email : Text
  pub role : Role
  pub token_hash : Text
  pub created_by : Text
  pub expires_at : ℕ
  pub used_at : Option ℕ
  pub created_at : ℕ

pub new_library_invitation :
    (ℕ → ℕ) → Text → Text → Text → Role → Text → Text → ℕ → ℕ → Result LibraryInvitation
new_library_invitation lower id library_id address role token_hash created_by expires_at
      created_at =
    let email = normal_email lower address in
    do
      reject_if (is_blank id) (error invalid_input)
      reject_if (is_blank library_id) (error invalid_input)
      reject_if (email_bad email) (error invalid_input)
      reject_if (not (role_valid role)) (error invalid_input)
      reject_if (is_blank token_hash) (error invalid_input)
      reject_if (is_blank created_by) (error invalid_input)
      ok (record {
        id = id;
        library_id = library_id;
        email = email;
        role = role;
        token_hash = token_hash;
        created_by = created_by;
        expires_at = expires_at;
        used_at = none;
        created_at = created_at;
      })

pub invitation_valid : LibraryInvitation → ℕ → Bool
invitation_valid inv now = is_nil inv.used_at && ltb now inv.expires_at

pub mark_invitation_used : LibraryInvitation → ℕ → LibraryInvitation
mark_invitation_used inv now = record inv { used_at = some now }
