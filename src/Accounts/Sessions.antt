-- ===== src/Accounts/Sessions.antt =====
-- RefreshHandler and LogoutHandler of internal/transport/http/auth_handlers.go, with the statements of
-- RefreshTokenRepository in internal/persistence/postgres/auth_repository.go, on the list of the rows
-- of user_refresh_tokens. A handler reads first and saves afterwards, each save a statement of its own
-- that may fail: other handlers' reads and saves may stand between them. A request is the SHA-256 text
-- of the token that it shows; a read that fails is answered as a hash that is not there, and changes
-- nothing. The limiter, the library claims and the wire format are left out.
mod Spent
mod Keys
mod Pending
pub mod Rotation
mod Samples
use alexandryn.Base.{
  ℕ, zero, suc, ◌+◌, ◌*◌, Bool, not, ◌&&◌, Option, none, some, List, [], ◌∷◌, ◌++◌, leb,
  if◌then◌else◌, any, ℤ, pos, negsuc, Text, text_eq, ok, err,
}
use alexandryn.Accounts.Tokens.{RefreshToken, new_refresh_token, is_nil, is_active, revoke}

abbrev pub Store : Type 0
Store = List RefreshToken

unfoldable pub find_by_token_hash : Store → Text → Option RefreshToken
find_by_token_hash [] hash = none
find_by_token_hash (r ∷ store) hash =
    if text_eq r.token_hash hash then some r else find_by_token_hash store hash

abbrev pub has_id : Text → Store → Bool
has_id id store = any (λ r. text_eq r.id id) store

abbrev pub has_hash : Text → Store → Bool
has_hash hash store = any (λ r. text_eq r.token_hash hash) store

unfoldable pub set_revoked : Text → Option ℕ → Store → Store
set_revoked id at [] = []
set_revoked id at (r ∷ store) =
    (if text_eq r.id id then record r { revoked_at = at } else r) ∷ set_revoked id at store

-- Save: INSERT … ON CONFLICT (id) DO UPDATE SET revoked_at, which the unique token_hash may refuse.
unfoldable pub save : Store → RefreshToken → Store
unfolding set_revoked any
save store r =
    if has_id r.id store
    then set_revoked r.id r.revoked_at store
    else if has_hash r.token_hash store
    then store
    else store ++ (r ∷ [])

-- RevokeAllForUser
unfoldable pub revoke_all_for_user : Text → ℕ → Store → Store
revoke_all_for_user user_id now [] = []
revoke_all_for_user user_id now (r ∷ store) =
    (if text_eq r.user_id user_id && is_nil r.revoked_at
      then record r { revoked_at = some now }
      else r)
    ∷ revoke_all_for_user user_id now store

abbrev day : ℕ
day = 86400000000000

-- The lifetime of a new token: RememberDeviceDays when the settings give it from 1 to 90, else 30 days.
abbrev ttl_of : Option ℤ → ℕ
ttl_of none = 30 * day
ttl_of (some (pos days)) = if leb 1 days && leb days 90 then days * day else 30 * day
ttl_of (some (negsuc days)) = 30 * day

-- The row that the handlers save after NewRefreshToken; there is none when it refuses.
unfoldable pub new_row : Text → Text → Text → Option ℤ → ℕ → List RefreshToken
new_row new_id user_id new_hash remember_days now =
    elim (new_refresh_token new_id user_id new_hash (now + ttl_of remember_days) now) [
      | err e ↦ []
      | ok r ↦ r ∷ []
    ]

-- RefreshHandler up to its first write, on the table as its read finds it; `known` is whether FindByID
-- finds the user. None is the answer 401. Else it is the user whom new tokens are given to, whatever
-- becomes of the writes, and the rows that the handler goes on to save, in order.
unfoldable pub refresh :
    (Text → Bool) → Store → Text → Text → Text → Option ℤ → ℕ → Option (Text × List RefreshToken)
unfolding find_by_token_hash is_active revoke
refresh known store hash new_id new_hash remember_days now = elim (find_by_token_hash store hash) [
  | none ↦ none
  | some r ↦
      if not (is_active r now)
      then none
      else if not (known r.user_id)
      then none
      else some (r.user_id, revoke r now ∷ new_row new_id r.user_id new_hash remember_days now)
]

-- LogoutHandler up to its write: the rows that it goes on to save.
unfoldable pub logout : Store → Text → ℕ → List RefreshToken
unfolding find_by_token_hash revoke
logout store hash now = elim (find_by_token_hash store hash) [
  | none ↦ []
  | some r ↦ revoke r now ∷ []
]

-- `_ = rtRepo.Save(...)`: a save that fails leaves the table, and the handler goes on.
unfoldable pub write : Bool → Store → RefreshToken → Store
unfolding save
write succeeds store r = if succeeds then save store r else store

-- The table, and for each handler at work the rows that it has still to save.
pub record Server : Type 0 where
  pub store : Store
  pub handlers : List (List RefreshToken)

-- The next row of the n-th handler, and what is left to save then.
unfoldable pub next_write :
    ℕ → List (List RefreshToken) → Option (RefreshToken × List (List RefreshToken))
next_write n [] = none
next_write zero ([] ∷ handlers) = none
next_write zero ((r ∷ rows) ∷ handlers) = some (r, rows ∷ handlers)
next_write (suc n) (rows ∷ handlers) = elim (next_write n handlers) [
  | none ↦ none
  | some (r, others) ↦ some (r, rows ∷ others)
]

-- What happens on the server: the reads of a refresh and of a logout, a login that goes on to its save,
-- one save of a handler at work with its outcome, and the revocations of a password reset, which change
-- nothing when they fail.
pub data Step : Type 0 where
  refreshing : (Text → Bool) → Text → Text → Text → Option ℤ → ℕ → Step
  logging_out : Text → ℕ → Step
  logging_in : Text → Text → Text → Option ℤ → ℕ → Step
  saving : ℕ → Bool → Step
  resetting : Text → ℕ → Step

unfoldable pub apply : Server → Step → Server
unfolding refresh logout new_row write next_write revoke_all_for_user
apply w (refreshing known hash new_id new_hash days now) =
    elim (refresh known w.store hash new_id new_hash days now) [
      | none ↦ w
      | some (user, rows) ↦ record w { handlers = rows ∷ w.handlers }
    ]
apply w (logging_out hash now) = record w { handlers = logout w.store hash now ∷ w.handlers }
apply w (logging_in user_id new_id new_hash days now) = record w {
  handlers = new_row new_id user_id new_hash days now ∷ w.handlers;
}
apply w (saving n succeeds) = elim (next_write n w.handlers) [
  | none ↦ w
  | some (r, others) ↦ record { store = write succeeds w.store r; handlers = others }
]
apply w (resetting user_id now) = record w { store = revoke_all_for_user user_id now w.store }

unfoldable pub run : Server → List Step → Server
unfolding apply
run w [] = w
run w (s ∷ steps) = run (apply w s) steps
