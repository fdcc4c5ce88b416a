-- ===== src/Accounts/Tokens/Spending.antt =====
-- When tokens are usable: their expiry and their spending.
use alexandryn.Base.{ℕ, ◌<◌, ◌≡◌, refl, ◌↔◌, true, false, arith, Text, ok}
use alexandryn.Accounts.Users.{Role}
use alexandryn.Accounts.Tokens.{
  RefreshToken, new_refresh_token, is_active, revoke, PasswordResetToken, new_password_reset_token,
  reset_valid, mark_reset_used, LibraryInvitation, new_library_invitation, invitation_valid,
  mark_invitation_used,
}

-- A refresh token that the constructor returns is active exactly before its expiry, and once it is
-- revoked it is active at no time, however often it is revoked again.
pub new_refresh_token-is_active :
    (id user_id token_hash : Text) (expires_at created_at : ℕ) (t : RefreshToken)
    → new_refresh_token id user_id token_hash expires_at created_at ≡ ok t
    → ((now : ℕ) → (is_active t now ≡ true) ↔ (now < expires_at))
      × ((at again now : ℕ)
          → (is_active (revoke t at) now ≡ false)
            × (is_active (revoke (revoke t at) again) now ≡ false))
unfolding new_refresh_token is_active revoke
new_refresh_token-is_active id user_id token_hash expires_at created_at t h =
    (λ now. (λ k. ground arith, λ k. ground arith), λ at again now. (refl, refl))

-- A password reset token and an invitation that their constructors return are valid exactly before
-- their expiry, and at no time once they are marked used.
pub single_use :
    (lower : ℕ → ℕ) (id user_id library_id address token_hash created_by : Text) (role : Role)
    (expires_at created_at : ℕ) (p : PasswordResetToken) (inv : LibraryInvitation)
    → new_password_reset_token id user_id token_hash expires_at created_at ≡ ok p
    → new_library_invitation lower id library_id address role token_hash created_by expires_at
        created_at
      ≡ ok inv
    → (at now : ℕ)
    → ((reset_valid p now ≡ true) ↔ (now < expires_at))
      × ((invitation_valid inv now ≡ true) ↔ (now < expires_at))
      × (reset_valid (mark_reset_used p at) now ≡ false)
      × (invitation_valid (mark_invitation_used inv at) now ≡ false)
unfolding new_password_reset_token new_library_invitation reset_valid invitation_valid
    mark_reset_used mark_invitation_used
single_use lower id user_id library_id address token_hash created_by role expires_at created_at p
      inv hp hi at now =
    ((λ k. ground arith, λ k. ground arith), (λ k. ground arith, λ k. ground arith), refl, refl)
