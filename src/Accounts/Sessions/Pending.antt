-- ===== src/Accounts/Sessions/Pending.antt =====
-- The rows that the handlers at work have still to save.
use alexandryn.Base.{
  ℕ, zero, suc, ◌≡◌, subst, inl, inr, Bool, true, not, Option, some, List, [], ◌∷◌, arith,
  Bool-cases, Option-cases, All, ℤ, Text, is_blank,
}
use alexandryn.Accounts.Tokens.{RefreshToken, new_refresh_token, is_nil, is_active, revoke}
use alexandryn.Accounts.Sessions.{
  Store, find_by_token_hash, new_row, refresh, logout, write, Server, next_write, Step, refreshing,
  logging_out, logging_in, saving, resetting, apply, run,
}
use alexandryn.Accounts.Sessions.Spent.{IsKeyed}
use alexandryn.Accounts.Sessions.Keys.{
  owns, found-owns, save-IsKeyed, save-owns, revoke_all-IsKeyed, revoke_all-owns,
}

abbrev pub revocation : RefreshToken → Bool
revocation r = not (is_nil r.revoked_at)

-- A revocation that is still to be saved is one of a row of the table.
abbrev Owned : Store → RefreshToken → Type 0
Owned store r = revocation r ≡ true → owns store r ≡ true

abbrev AllOwned : Store → List (List RefreshToken) → Type 0
AllOwned store handlers = All (λ rows. All (Owned store) rows) handlers

abbrev pub IsSound : Server → Type 0
IsSound w = IsKeyed w.store × AllOwned w.store w.handlers

Owned-weaken :
    (store later : Store)
    → ((r : RefreshToken) → owns store r ≡ true → owns later r ≡ true)
    → (handlers : List (List RefreshToken)) → AllOwned store handlers
    → AllOwned later handlers
Owned-weaken store later keeps [] h = tt
Owned-weaken store later keeps (rows ∷ handlers) (h, hs) =
    (each rows h, Owned-weaken store later keeps handlers hs)
  where
    each : (rs : List RefreshToken) → All (Owned store) rs → All (Owned later) rs
    each [] k = tt
    each (r ∷ rs) (k, ks) = ((λ v. keeps r (k v)), each rs ks)

pub next_write-Owned :
    (store : Store) (n : ℕ) (handlers : List (List RefreshToken)) (r : RefreshToken)
    (others : List (List RefreshToken))
    → next_write n handlers ≡ some (r, others)
    → AllOwned store handlers
    → Owned store r × AllOwned store others
unfolding next_write
next_write-Owned store n [] r others e h = cc e
next_write-Owned store zero ([] ∷ handlers) r others e h = cc e
next_write-Owned store zero ((x ∷ rows) ∷ handlers) r others e ((k, ks), hs) =
    let same : x ≡ r = ground arith in
    let rest : rows ∷ handlers ≡ others = ground arith in
    (
      subst (λ (y : RefreshToken). Owned store y) same k,
      subst (λ (y : List (List RefreshToken)). AllOwned store y) rest (ks, hs),
    )
next_write-Owned store (suc n) (rows ∷ handlers) r others e (h, hs) =
    elim (Option-cases (next_write n handlers)) [
      | inl f ↦ cc (rw (f, next_write) at e)
      | inr ((x, more), f) ↦
          let (k, ks) = next_write-Owned store n handlers x more f hs in
          let opened : ◌≡◌ {A = Option (RefreshToken × List (List RefreshToken))}
              (some (x, rows ∷ more)) (some (r, others)) =
            rw (f, next_write) at e in
          let same : x ≡ r = ground arith in
          let rest : rows ∷ more ≡ others = ground arith in
          (
            subst (λ (y : RefreshToken). Owned store y) same k,
            subst (λ (y : List (List RefreshToken)). AllOwned store y) rest (h, ks),
          )
    ]

new_row-Owned :
    (store : Store) (new_id user_id new_hash : Text) (days : Option ℤ) (now : ℕ)
    → All (Owned store) (new_row new_id user_id new_hash days now)
unfolding new_row new_refresh_token
new_row-Owned store new_id user_id new_hash days now = elim (Bool-cases (is_blank new_id)) [
  | inl y ↦ rw (All, new_row, new_refresh_token, y) tt
  | inr a ↦ elim (Bool-cases (is_blank user_id)) [
    | inl y ↦ rw (All, new_row, new_refresh_token, a, y) tt
    | inr b ↦ elim (Bool-cases (is_blank new_hash)) [
      | inl y ↦ rw (All, new_row, new_refresh_token, a, b, y) tt
      | inr c ↦ rw (All, new_row, new_refresh_token, a, b, c) ((λ v. ground arith), tt)
    ]
  ]
]

-- What a refresh that is let through, and a logout, go on to save.
refresh-Owned :
    (known : Text → Bool) (store : Store) (hash new_id new_hash user : Text) (days : Option ℤ)
    (now : ℕ) (rows : List RefreshToken)
    → refresh known store hash new_id new_hash days now ≡ some (user, rows)
    → All (Owned store) rows
unfolding refresh
refresh-Owned known store hash new_id new_hash user days now rows h =
    elim (Option-cases (find_by_token_hash store hash)) [
      | inl e ↦ cc (rw (e, refresh) at h)
      | inr (r, e) ↦ elim (Bool-cases (is_active r now)) [
        | inr over ↦ cc (rw (e, refresh, over) at h)
        | inl live ↦ elim (Bool-cases (known r.user_id)) [
          | inr gone ↦ cc (rw (e, refresh, live, gone) at h)
          | inl there ↦
              let opened : ◌≡◌ {A = Option (Text × List RefreshToken)}
                  (some (r.user_id, revoke r now ∷ new_row new_id r.user_id new_hash days now))
                  (some (user, rows)) =
                rw (e, refresh, live, there) at h in
              let same : revoke r now ∷ new_row new_id r.user_id new_hash days now ≡ rows =
                ground arith in
              subst (λ (x : List RefreshToken). All (Owned store) x) same
                (
                  (λ v. unfold revoke in found-owns store hash r e),
                  new_row-Owned store new_id r.user_id new_hash days now,
                )
        ]
      ]
    ]

logout-Owned : (store : Store) (hash : Text) (now : ℕ) → All (Owned store) (logout store hash now)
unfolding logout
logout-Owned store hash now = elim (Option-cases (find_by_token_hash store hash)) [
  | inl e ↦ rw (e, logout) tt
  | inr (r, e) ↦ rw (e, logout) ((λ v. unfold revoke in found-owns store hash r e), tt)
]

apply-IsSound : (w : Server) (s : Step) → IsSound w → IsSound (apply w s)
unfolding apply write
apply-IsSound w (refreshing known hash new_id new_hash days now) (k, h) =
    elim (Option-cases (refresh known w.store hash new_id new_hash days now)) [
      | inl e ↦ rw (e, apply) (k, h)
      | inr ((user, rows), e) ↦
          rw (e, apply)
            (k, (refresh-Owned known w.store hash new_id new_hash user days now rows e, h))
    ]
apply-IsSound w (logging_out hash now) (k, h) = (k, (logout-Owned w.store hash now, h))
apply-IsSound w (logging_in user_id new_id new_hash days now) (k, h) =
    (k, (new_row-Owned w.store new_id user_id new_hash days now, h))
apply-IsSound w (saving n succeeds) (k, h) = elim (Option-cases (next_write n w.handlers)) [
  | inl e ↦ rw (e, apply) (k, h)
  | inr ((r, others), e) ↦
      let (_, rest) = next_write-Owned w.store n w.handlers r others e h in
      elim (Bool-cases succeeds) [
        | inl y ↦
            rw (e, apply, y)
              (
                save-IsKeyed w.store r k,
                Owned-weaken w.store _ (λ x. save-owns w.store r x) others rest,
              )
        | inr failed ↦ rw (e, apply, failed) (k, rest)
      ]
]
apply-IsSound w (resetting user_id now) (k, h) = (
  revoke_all-IsKeyed user_id now w.store k,
  Owned-weaken w.store _ (λ x. revoke_all-owns user_id now w.store x) w.handlers h,
)

pub run-IsSound : (w : Server) (steps : List Step) → IsSound w → IsSound (run w steps)
unfolding run
run-IsSound w [] h = h
run-IsSound w (s ∷ steps) h = run-IsSound (apply w s) steps (apply-IsSound w s h)
