-- ===== src/Accounts/Sessions/Rotation.antt =====
-- A refresh token whose revocation has reached the table.
use alexandryn.Base.{
  ℕ, ◌≡◌, refl, sym, ap, ◌∙◌, subst, inl, inr, Bool, true, false, not, ◌||◌, Option, none, some,
  List, [], ◌∷◌, arith, Bool-cases, Option-cases, ℤ, Text,
}
use alexandryn.Accounts.Tokens.{RefreshToken, is_active, revoke}
use alexandryn.Accounts.Sessions.{
  Store, find_by_token_hash, has_id, new_row, refresh, write, Server, next_write, Step, refreshing,
  logging_out, logging_in, saving, resetting, apply, run,
}
use alexandryn.Accounts.Sessions.Spent.{
  IsSpent, IsKeyed, save_revoked, save_fresh, revoke_all-IsSpent, found-revoked,
}
use alexandryn.Accounts.Sessions.Keys.{found-hash, save-IsSpent}
use alexandryn.Accounts.Sessions.Pending.{revocation, IsSound, next_write-Owned, run-IsSound}

-- A row that is saved with no revocation is a new one: its id is on no row yet.
abbrev new_id_free : Store → Option (RefreshToken × List (List RefreshToken)) → Bool
new_id_free store none = true
new_id_free store (some (r, others)) = revocation r || not (has_id r.id store)

abbrev IsFreshStep : Server → Step → Type 0
IsFreshStep w (refreshing known hash new_id new_hash days now) = Unit
IsFreshStep w (logging_out hash now) = Unit
IsFreshStep w (logging_in user_id new_id new_hash days now) = Unit
IsFreshStep w (saving n succeeds) = new_id_free w.store (next_write n w.handlers) ≡ true
IsFreshStep w (resetting user_id now) = Unit

abbrev IsFresh : Server → List Step → Type 0
IsFresh w [] = Unit
IsFresh w (s ∷ steps) = IsFreshStep w s × IsFresh (apply w s) steps

-- A spent hash buys nothing.
spent-refused :
    (known : Text → Bool) (store : Store) (hash new_id new_hash : Text) (days : Option ℤ) (now : ℕ)
    → IsSpent hash store
    → refresh known store hash new_id new_hash days now ≡ none
unfolding refresh
spent-refused known store hash new_id new_hash days now h =
    elim (Option-cases (find_by_token_hash store hash)) [
      | inl e ↦ rw (e, refresh) refl
      | inr (r, e) ↦
          let over : is_active r now ≡ false =
            unfold is_active in rw (found-revoked store hash r e h.1) refl in
          rw (e, refresh, over) refl
    ]

-- A save keeps a hash spent, of a revocation as of a row with a new id, whether it succeeds or not.
write-IsSpent :
    (succeeds : Bool) (store : Store) (r : RefreshToken) (hash : Text)
    → (revocation r || not (has_id r.id store)) ≡ true
    → IsSpent hash store
    → IsSpent hash (write succeeds store r)
unfolding write
write-IsSpent false store r hash fresh h = h
write-IsSpent true store r hash fresh h = elim (Option-cases r.revoked_at) [
  | inl e ↦ save_fresh store r hash (ground (arith, rw e at fresh)) h
  | inr (t, e) ↦ save_revoked store r hash t e h
]

apply-IsSpent :
    (w : Server) (s : Step) (hash : Text)
    → IsFreshStep w s
    → IsSpent hash w.store
    → IsSpent hash (apply w s).store
unfolding apply
apply-IsSpent w (refreshing known other new_id new_hash days now) hash fresh h =
    elim (Option-cases (refresh known w.store other new_id new_hash days now)) [
      | inl e ↦ rw (e, apply) h
      | inr ((user, rows), e) ↦ rw (e, apply) h
    ]
apply-IsSpent w (logging_out other now) hash fresh h = h
apply-IsSpent w (logging_in user_id new_id new_hash days now) hash fresh h = h
apply-IsSpent w (saving n succeeds) hash fresh h = elim (Option-cases (next_write n w.handlers)) [
  | inl e ↦ rw (e, apply) h
  | inr ((r, others), e) ↦ rw (e, apply) (write-IsSpent succeeds w.store r hash (rw e at fresh) h)
]
apply-IsSpent w (resetting user_id now) hash fresh h = revoke_all-IsSpent user_id hash now w.store h

run-IsSpent :
    (w : Server) (steps : List Step) (hash : Text)
    → IsFresh w steps
    → IsSpent hash w.store
    → IsSpent hash (run w steps).store
unfolding run
run-IsSpent w [] hash fresh h = h
run-IsSpent w (s ∷ steps) hash (f, fs) h =
    run-IsSpent (apply w s) steps hash fs (apply-IsSpent w s hash f h)

-- A state of the server: the table had its keys when no handler was at work, and any reads, saves and
-- resets have followed.
abbrev IsReached : Server → Type 0
IsReached w =
    (store : Store) × (before : List Step) × IsKeyed store
    × (w ≡ run (record { store = store; handlers = [] }) before)

reached-IsSound : (w : Server) (steps : List Step) → IsReached w → IsSound (run w steps)
reached-IsSound w steps (store, before, keyed, e) =
    run-IsSound w steps
      (rw e (run-IsSound (record { store = store; handlers = [] }) before (keyed, tt)))

-- The save of a revocation, when it succeeds, spends the hash.
save-spends :
    (w : Server) (n : ℕ) (r : RefreshToken) (t : ℕ) (others : List (List RefreshToken))
    → IsSound w
    → next_write n w.handlers ≡ some (r, others)
    → r.revoked_at ≡ some t
    → IsSpent r.token_hash (apply w (saving n true)).store
unfolding apply write
save-spends w n r t others sound next revoked =
    rw (next, apply)
      (save-IsSpent w.store r t sound.0
        ((next_write-Owned w.store n w.handlers r others next sound.1).0 (rw revoked refl)) revoked)

-- What a refresh that is let through saves first.
first_save :
    (known : Text → Bool) (store : Store) (hash new_id new_hash user : Text) (days : Option ℤ)
    (now : ℕ) (r : RefreshToken) (more : List RefreshToken)
    → refresh known store hash new_id new_hash days now ≡ some (user, r ∷ more)
    → (r.token_hash ≡ hash) × (r.revoked_at ≡ some now)
unfolding refresh
first_save known store hash new_id new_hash user days now r more h =
    elim (Option-cases (find_by_token_hash store hash)) [
      | inl e ↦ cc (rw (e, refresh) at h)
      | inr (x, e) ↦ elim (Bool-cases (is_active x now)) [
        | inr over ↦ cc (rw (e, refresh, over) at h)
        | inl live ↦ elim (Bool-cases (known x.user_id)) [
          | inr gone ↦ cc (rw (e, refresh, live, gone) at h)
          | inl there ↦
              let opened : ◌≡◌ {A = Option (Text × List RefreshToken)}
                  (some (x.user_id, revoke x now ∷ new_row new_id x.user_id new_hash days now))
                  (some (user, r ∷ more)) =
                rw (e, refresh, live, there) at h in
              let same : revoke x now ≡ r = ground arith in
              (
                sym (ap (λ (y : RefreshToken). y.token_hash) same)
                    ∙ unfold revoke in found-hash store hash x e,
                sym (ap (λ (y : RefreshToken). y.revoked_at) same) ∙ unfold revoke in refl,
              )
        ]
      ]
    ]

-- In any interleaving of the reads and saves of refreshes, logouts and logins, of saves that fail and of
-- password resets: when a refresh has let a token through, the row that its handler saves first is
-- that token's, revoked, and once a handler's save of that row has succeeded every later refresh with
-- the token is refused, whatever steps stand between the read and the save, and whatever follow. After
-- that save, a row that is saved unrevoked is taken to have an id that is on no row yet.
pub refresh-once :
    (w : Server) (during after : List Step) (known : Text → Bool) (hash new_id new_hash user : Text)
    (days : Option ℤ) (now n : ℕ) (r : RefreshToken) (more : List RefreshToken)
    (others : List (List RefreshToken))
    → IsReached w
    → refresh known w.store hash new_id new_hash days now ≡ some (user, r ∷ more)
    → next_write n (run (apply w (refreshing known hash new_id new_hash days now)) during).handlers
      ≡ some (r, others)
    → IsFresh
        (apply
          (run (apply w (refreshing known hash new_id new_hash days now)) during)
          (saving n true))
        after
    → (r.token_hash ≡ hash)
      × (r.revoked_at ≡ some now)
      × ((known2 : Text → Bool) (id2 hash2 : Text) (days2 : Option ℤ) (later : ℕ)
          → refresh known2
              (run
                (apply
                  (run (apply w (refreshing known hash new_id new_hash days now)) during)
                  (saving n true))
                after).store
              hash
              id2
              hash2
              days2
              later
            ≡ none)
refresh-once w during after known hash new_id new_hash user days now n r more others reached
      answered next fresh =
    let (same, revoked) =
      first_save known w.store hash new_id new_hash user days now r more answered in
    (
      same,
      revoked,
      λ known2 id2 hash2 days2 later. spent-refused known2 _ hash id2 hash2 days2 later (
          run-IsSpent _ after hash fresh (
            subst
              (λ (x : Text).
                IsSpent x
                  (apply (run (apply w (refreshing known hash new_id new_hash days now)) during)
                    (saving n true)).store)
              same
              (save-spends _ n r now others
                (unfold run in
                  reached-IsSound w (refreshing known hash new_id new_hash days now ∷ during)
                    reached)
                next revoked))),
    )
