-- ===== src/Accounts/Sessions/Samples.antt =====
-- A stolen refresh token, shown while its owner's refresh is at work, and after it.
use alexandryn.Base.{
  ℕ, ◌≡◌, refl, Bool, true, false, none, Option, some, List, [], ◌∷◌, any, ℤ, pos, Text, lit,
  text_eq, is_space, trim_left, trim_space, is_blank,
}
use alexandryn.Accounts.Tokens.{RefreshToken, new_refresh_token, is_active, revoke}
use alexandryn.Accounts.Sessions.{
  Store, Server, refresh, new_row, write, next_write, Step, refreshing, logging_in, saving,
  find_by_token_hash, save, set_revoked, apply, run,
}
use alexandryn.Accounts.Sessions.Rotation.{refresh-once}

abbrev everyone : Text → Bool
everyone id = true

abbrev signed_in : Store
signed_in =
    record {
      id = lit "t1";
      user_id = lit "u1";
      token_hash = lit "h1";
      expires_at = 1000;
      revoked_at = none;
      created_at = 1;
    }
    ∷ []

abbrev at_rest : Server
at_rest = record { store = signed_in; handlers = [] }

abbrev owner_asks : Server
owner_asks = apply at_rest (refreshing everyone (lit "h1") (lit "t2") (lit "h2") none 30)

-- The thief is let through as well, since nothing is saved yet.
abbrev meanwhile : List Step
meanwhile = refreshing everyone (lit "h1") (lit "t3") (lit "h3") none 31 ∷ saving 0 false ∷ []

abbrev afterwards : List Step
afterwards =
    saving 1 true
    ∷ saving 0 true
    ∷ refreshing everyone (lit "h2") (lit "t4") (lit "h4") none 40
    ∷ saving 0 false
    ∷ logging_in (lit "u1") (lit "t5") (lit "h5") (some (pos 7)) 50
    ∷ saving 0 true
    ∷ []

-- The owner's token, revoked, and the new one.
abbrev revoked_row : RefreshToken
revoked_row = record {
  id = lit "t1";
  user_id = lit "u1";
  token_hash = lit "h1";
  expires_at = 1000;
  revoked_at = some 30;
  created_at = 1;
}

abbrev new_rows : List RefreshToken
new_rows = new_row (lit "t2") (lit "u1") (lit "h2") none 30

-- Two handlers that read before either saves are both answered.
both_let_through :
    run owner_asks (refreshing everyone (lit "h1") (lit "t3") (lit "h3") none 31 ∷ []) ≡ record {
      store = signed_in;
      handlers =
          (record revoked_row { revoked_at = some 31 }
            ∷ new_row (lit "t3") (lit "u1") (lit "h3") none 31)
          ∷ (revoked_row ∷ new_rows)
          ∷ [];
    }
unfolding refresh find_by_token_hash apply run text_eq is_active revoke
both_let_through = refl

refresh-once_example :
    (revoked_row.token_hash ≡ lit "h1")
    × (revoked_row.revoked_at ≡ some 30)
    × ((known2 : Text → Bool) (id2 hash2 : Text) (days2 : Option ℤ) (later : ℕ)
        → refresh known2
            (run (apply (run owner_asks meanwhile) (saving 1 true)) afterwards).store
            (lit "h1")
            id2
            hash2
            days2
            later
          ≡ none)
unfolding refresh find_by_token_hash next_write write save set_revoked apply run any text_eq new_row
    new_refresh_token is_active revoke is_blank trim_space trim_left is_space
refresh-once_example =
    refresh-once at_rest meanwhile afterwards everyone (lit "h1") (lit "t2") (lit "h2") (lit "u1")
      none 30 1 revoked_row new_rows
      (new_row (lit "t3") (lit "u1") (lit "h3") none 31 ∷ new_rows ∷ [])
      (signed_in, [], (refl, refl, tt), refl) refl refl
      (refl, (refl, (tt, (refl, (tt, (refl, tt))))))
