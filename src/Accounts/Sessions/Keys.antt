-- ===== src/Accounts/Sessions/Keys.antt =====
-- The keys of user_refresh_tokens, and the rows that stay in it, under each write.
use alexandryn.Base.{
  ℕ, ◌≡◌, refl, sym, ap, ◌∙◌, subst, inl, inr, Bool, true, false, ◌&&◌, Option, some, [], ◌∷◌, ◌++◌,
  arith, Bool-cases, &&-true, all, any, Text, text_eq, text_eq_iff, text_eq_refl,
}
use alexandryn.Accounts.Tokens.{RefreshToken, is_nil}
use alexandryn.Accounts.Sessions.{
  Store, find_by_token_hash, has_id, has_hash, set_revoked, save, revoke_all_for_user,
}
use alexandryn.Accounts.Sessions.Spent.{
  IsKeyed, set_revoked-has_hash, set_revoked-has_id, IsSpent, spent_row, set_revoked-spent,
  unused-spent,
}

-- The row of the token is in the table, revoked or not.
abbrev pub owns : Store → RefreshToken → Bool
owns store r = any (λ x. text_eq x.id r.id && text_eq x.token_hash r.token_hash) store

owns-has_id : (store : Store) (r : RefreshToken) → owns store r ≡ true → has_id r.id store ≡ true
unfolding any
owns-has_id [] r h = cc h
owns-has_id (x ∷ store) r h = ground (arith, owns-has_id store r)

owns-has_hash :
    (store : Store) (r : RefreshToken) → owns store r ≡ true → has_hash r.token_hash store ≡ true
unfolding any
owns-has_hash [] r h = cc h
owns-has_hash (x ∷ store) r h = ground (arith, owns-has_hash store r)

pub found-owns :
    (store : Store) (hash : Text) (r : RefreshToken)
    → find_by_token_hash store hash ≡ some r
    → owns store r ≡ true
unfolding find_by_token_hash any
found-owns [] hash r h = cc h
found-owns (x ∷ store) hash r h = elim (Bool-cases (text_eq x.token_hash hash)) [
  | inl y ↦
      let same : x ≡ r = ground arith in
      rw same (rw (text_eq_refl r.id, text_eq_refl r.token_hash) refl)
  | inr n ↦
      let there = found-owns store hash r (rw (n, find_by_token_hash) at h) in
      rw there (ground arith)
]

pub found-hash :
    (store : Store) (hash : Text) (r : RefreshToken)
    → find_by_token_hash store hash ≡ some r
    → r.token_hash ≡ hash
unfolding find_by_token_hash
found-hash [] hash r h = cc h
found-hash (x ∷ store) hash r h = elim (Bool-cases (text_eq x.token_hash hash)) [
  | inl y ↦
      let same : x ≡ r = ground arith in
      sym (ap (λ (z : RefreshToken). z.token_hash) same) ∙ (text_eq_iff x.token_hash hash).0 y
  | inr n ↦ found-hash store hash r (rw (n, find_by_token_hash) at h)
]

set_revoked-owns :
    (id : Text) (at : Option ℕ) (r : RefreshToken) (store : Store)
    → owns (set_revoked id at store) r ≡ owns store r
unfolding set_revoked any
set_revoked-owns id at r [] = refl
set_revoked-owns id at r (x ∷ store) = elim (Bool-cases (text_eq x.id id)) [
  | inl y ↦ rw (y, set_revoked-owns id at r store) refl
  | inr n ↦ rw (n, set_revoked-owns id at r store) refl
]

set_revoked-IsKeyed :
    (id : Text) (at : Option ℕ) (store : Store) → IsKeyed store → IsKeyed (set_revoked id at store)
unfolding set_revoked
set_revoked-IsKeyed id at [] k = tt
set_revoked-IsKeyed id at (x ∷ store) (named, hashed, k) =
    let rest = set_revoked-IsKeyed id at store k in
    let no_id = set_revoked-has_id id at x.id store ∙ named in
    let no_hash = set_revoked-has_hash id at x.token_hash store ∙ hashed in
    elim (Bool-cases (text_eq x.id id)) [
      | inl y ↦ rw y (no_id, no_hash, rest)
      | inr n ↦ rw n (no_id, no_hash, rest)
    ]

any-append_one :
    (test : RefreshToken → Bool) (store : Store) (r : RefreshToken)
    → any test store ≡ false
    → test r ≡ false
    → any test (store ++ (r ∷ [])) ≡ false
unfolding any
any-append_one test [] r h k = rw k refl
any-append_one test (x ∷ store) r h k = ground (arith, any-append_one test store r)

any-append_keeps :
    (test : RefreshToken → Bool) (store : Store) (r : RefreshToken)
    → any test store ≡ true
    → any test (store ++ (r ∷ [])) ≡ true
unfolding any
any-append_keeps test [] r h = cc h
any-append_keeps test (x ∷ store) r h = ground (arith, any-append_keeps test store r)

apart : (s t : Text) → text_eq s t ≡ false → text_eq t s ≡ false
apart s t n = elim (Bool-cases (text_eq t s)) [
  | inr z ↦ z
  | inl y ↦ let same = (text_eq_iff t s).0 y in cc (rw (same, text_eq_refl s) at n)
]

append-IsKeyed :
    (store : Store) (r : RefreshToken)
    → has_id r.id store ≡ false
    → has_hash r.token_hash store ≡ false
    → IsKeyed store
    → IsKeyed (store ++ (r ∷ []))
unfolding any
append-IsKeyed [] r i h k = (refl, refl, tt)
append-IsKeyed (x ∷ store) r i h (named, hashed, k) = (
  any-append_one (λ y. text_eq y.id x.id) store r named (apart x.id r.id (ground arith)),
  any-append_one (λ y. text_eq y.token_hash x.token_hash) store r hashed
      (apart x.token_hash r.token_hash (ground arith)),
  append-IsKeyed store r (ground arith) (ground arith) k,
)

-- Save keeps the keys and every row.
pub save-IsKeyed : (store : Store) (r : RefreshToken) → IsKeyed store → IsKeyed (save store r)
unfolding save
save-IsKeyed store r k = elim (Bool-cases (has_id r.id store)) [
  | inl y ↦ rw (y, save) (set_revoked-IsKeyed r.id r.revoked_at store k)
  | inr n ↦ elim (Bool-cases (has_hash r.token_hash store)) [
    | inl taken ↦ rw (n, save, taken) k
    | inr free ↦ rw (n, save, free) (append-IsKeyed store r n free k)
  ]
]

pub save-owns :
    (store : Store) (r other : RefreshToken)
    → owns store other ≡ true
    → owns (save store r) other ≡ true
unfolding save
save-owns store r other h = elim (Bool-cases (has_id r.id store)) [
  | inl y ↦ rw (y, save) (set_revoked-owns r.id r.revoked_at other store ∙ h)
  | inr n ↦ elim (Bool-cases (has_hash r.token_hash store)) [
    | inl taken ↦ rw (n, save, taken) h
    | inr free ↦ rw (n, save, free) (any-append_keeps _ store r h)
  ]
]

-- Of a row, only whether it is revoked changes when a user's tokens are revoked.
revoke_all-any :
    (user_id : Text) (now : ℕ) (test : RefreshToken → Bool) (store : Store)
    → ((r : RefreshToken) → test (record r { revoked_at = some now }) ≡ test r)
    → any test (revoke_all_for_user user_id now store) ≡ any test store
unfolding revoke_all_for_user any
revoke_all-any user_id now test [] same = refl
revoke_all-any user_id now test (x ∷ store) same =
    elim (Bool-cases (text_eq x.user_id user_id && is_nil x.revoked_at)) [
      | inl y ↦ rw (y, same x, revoke_all-any user_id now test store same) refl
      | inr n ↦ rw (n, revoke_all-any user_id now test store same) refl
    ]

pub revoke_all-IsKeyed :
    (user_id : Text) (now : ℕ) (store : Store)
    → IsKeyed store
    → IsKeyed (revoke_all_for_user user_id now store)
unfolding revoke_all_for_user
revoke_all-IsKeyed user_id now [] k = tt
revoke_all-IsKeyed user_id now (x ∷ store) (named, hashed, k) =
    let rest = revoke_all-IsKeyed user_id now store k in
    let no_id = revoke_all-any user_id now (λ y. text_eq y.id x.id) store (λ r. refl) ∙ named in
    let no_hash =
      revoke_all-any user_id now (λ y. text_eq y.token_hash x.token_hash) store (λ r. refl)
      ∙ hashed in
    elim (Bool-cases (text_eq x.user_id user_id && is_nil x.revoked_at)) [
      | inl y ↦ rw y (no_id, no_hash, rest)
      | inr n ↦ rw n (no_id, no_hash, rest)
    ]

pub revoke_all-owns :
    (user_id : Text) (now : ℕ) (store : Store) (r : RefreshToken)
    → owns store r ≡ true
    → owns (revoke_all_for_user user_id now store) r ≡ true
revoke_all-owns user_id now store r h =
    revoke_all-any user_id now (λ x. text_eq x.id r.id && text_eq x.token_hash r.token_hash) store
      (λ x. refl)
    ∙ h

-- Revoking a row of the table spends its hash.
revoked-spent :
    (store : Store) (r : RefreshToken) (t : ℕ)
    → IsKeyed store
    → owns store r ≡ true
    → all (spent_row r.token_hash) (set_revoked r.id (some t) store) ≡ true
unfolding set_revoked any all
revoked-spent [] r t k h = refl
revoked-spent (x ∷ store) r t (named, hashed, k) h =
    elim (Bool-cases (text_eq x.id r.id && text_eq x.token_hash r.token_hash)) [
      | inl both ↦
          let (own, y) = &&-true (text_eq x.id r.id) (text_eq x.token_hash r.token_hash) both in
          let unique =
            subst (λ (s : Text). has_hash s store ≡ false)
              ((text_eq_iff x.token_hash r.token_hash).0 y) hashed in
          rw (own, y)
            (set_revoked-spent r.id r.token_hash t store (unused-spent r.token_hash store unique))
      | inr other ↦
          let there : owns store r ≡ true = ground arith in
          let rest = revoked-spent store r t k there in
          elim (Bool-cases (text_eq x.id r.id)) [
            | inl y ↦ rw (y, rest) (ground arith)
            | inr z ↦ elim (Bool-cases (text_eq x.token_hash r.token_hash)) [
              | inl y ↦
                  let same = (text_eq_iff x.token_hash r.token_hash).0 y in
                  cc (rw (same, owns-has_hash store r there) at hashed)
              | inr n ↦ rw (z, n) rest
            ]
          ]
    ]

pub save-IsSpent :
    (store : Store) (r : RefreshToken) (t : ℕ)
    → IsKeyed store
    → owns store r ≡ true
    → r.revoked_at ≡ some t
    → IsSpent r.token_hash (save store r)
unfolding save
save-IsSpent store r t k h e =
    rw (owns-has_id store r h, save, e)
      (
        set_revoked-has_hash r.id (some t) r.token_hash store ∙ owns-has_hash store r h,
        revoked-spent store r t k h,
      )
