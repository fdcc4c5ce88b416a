-- ===== src/Accounts/Sessions/Spent.antt =====
-- The rows of a spent hash, under each write of the table.
use alexandryn.Base.{
  ℕ, ◌≡◌, refl, ◌∙◌, subst, inl, inr, Bool, true, false, not, ◌&&◌, ◌||◌, Option, some, [], ◌∷◌,
  ◌++◌, arith, Bool-cases, &&-true, all, any, all-append, Text, text_eq, text_eq_iff,
}
use alexandryn.Accounts.Tokens.{RefreshToken, is_nil}
use alexandryn.Accounts.Sessions.{
  Store, find_by_token_hash, has_id, has_hash, set_revoked, save, revoke_all_for_user,
}

-- The hash is taken, by rows that are all revoked.
abbrev pub spent_row : Text → RefreshToken → Bool
spent_row hash r = not (text_eq r.token_hash hash) || not (is_nil r.revoked_at)

abbrev pub IsSpent : Text → Store → Type 0
IsSpent hash store = (has_hash hash store ≡ true) × (all (spent_row hash) store ≡ true)

-- PRIMARY KEY (id), UNIQUE (token_hash)
abbrev pub IsKeyed : Store → Type 0
IsKeyed [] = Unit
IsKeyed (r ∷ store) =
    (has_id r.id store ≡ false) × (has_hash r.token_hash store ≡ false) × IsKeyed store

pub set_revoked-has_hash :
    (id : Text) (at : Option ℕ) (hash : Text) (store : Store)
    → has_hash hash (set_revoked id at store) ≡ has_hash hash store
unfolding set_revoked any
set_revoked-has_hash id at hash [] = refl
set_revoked-has_hash id at hash (r ∷ store) = elim (Bool-cases (text_eq r.id id)) [
  | inl y ↦ rw (y, set_revoked-has_hash id at hash store) refl
  | inr n ↦ rw (n, set_revoked-has_hash id at hash store) refl
]

pub set_revoked-has_id :
    (id : Text) (at : Option ℕ) (other : Text) (store : Store)
    → has_id other (set_revoked id at store) ≡ has_id other store
unfolding set_revoked any
set_revoked-has_id id at other [] = refl
set_revoked-has_id id at other (r ∷ store) = elim (Bool-cases (text_eq r.id id)) [
  | inl y ↦ rw (y, set_revoked-has_id id at other store) refl
  | inr n ↦ rw (n, set_revoked-has_id id at other store) refl
]

pub set_revoked-spent :
    (id hash : Text) (t : ℕ) (store : Store)
    → all (spent_row hash) store ≡ true
    → all (spent_row hash) (set_revoked id (some t) store) ≡ true
unfolding set_revoked all
set_revoked-spent id hash t [] h = refl
set_revoked-spent id hash t (r ∷ store) h =
    let (mine, rest) = &&-true (spent_row hash r) (all (spent_row hash) store) h in
    elim (Bool-cases (text_eq r.id id)) [
      | inl y ↦ rw y (ground (arith, set_revoked-spent id hash t store rest))
      | inr n ↦ rw n (ground (arith, mine, set_revoked-spent id hash t store rest))
    ]

append-has_hash :
    (hash : Text) (store : Store) (r : RefreshToken)
    → has_hash hash store ≡ true
    → has_hash hash (store ++ (r ∷ [])) ≡ true
unfolding any
append-has_hash hash [] r h = cc h
append-has_hash hash (x ∷ store) r h = ground (arith, append-has_hash hash store r)

append-spent :
    (hash : Text) (store : Store) (r : RefreshToken)
    → all (spent_row hash) store ≡ true
    → spent_row hash r ≡ true
    → all (spent_row hash) (store ++ (r ∷ [])) ≡ true
append-spent hash store r h k =
    rw (all-append (spent_row hash) store (r ∷ [])) (unfold all in rw (h, k) refl)

pub save_revoked :
    (store : Store) (r : RefreshToken) (hash : Text) (t : ℕ)
    → r.revoked_at ≡ some t
    → IsSpent hash store
    → IsSpent hash (save store r)
unfolding save
save_revoked store r hash t e (taken, spent) = elim (Bool-cases (has_id r.id store)) [
  | inl y ↦
      rw (y, save, e)
        (
          set_revoked-has_hash r.id (some t) hash store ∙ taken,
          set_revoked-spent r.id hash t store spent,
        )
  | inr n ↦ elim (Bool-cases (has_hash r.token_hash store)) [
    | inl k ↦ rw (n, save, k) (taken, spent)
    | inr k ↦
        rw (n, save, k)
          (
            append-has_hash hash store r taken,
            append-spent hash store r spent (rw e (ground arith)),
          )
  ]
]

pub save_fresh :
    (store : Store) (r : RefreshToken) (hash : Text)
    → has_id r.id store ≡ false
    → IsSpent hash store
    → IsSpent hash (save store r)
unfolding save
save_fresh store r hash n (taken, spent) = elim (Bool-cases (has_hash r.token_hash store)) [
  | inl k ↦ rw (n, save, k) (taken, spent)
  | inr k ↦
      let other : text_eq r.token_hash hash ≡ false =
        elim (Bool-cases (text_eq r.token_hash hash)) [
          | inl y ↦ let same = (text_eq_iff r.token_hash hash).0 y in cc
          | inr z ↦ z
        ] in
      rw (n, save, k)
        (append-has_hash hash store r taken, append-spent hash store r spent (rw other refl))
]

pub unused-spent :
    (hash : Text) (store : Store) → has_hash hash store ≡ false → all (spent_row hash) store ≡ true
unfolding any all
unused-spent hash [] h = refl
unused-spent hash (r ∷ store) h = ground (arith, unused-spent hash store)

pub revoke_all-IsSpent :
    (user_id hash : Text) (now : ℕ) (store : Store)
    → IsSpent hash store
    → IsSpent hash (revoke_all_for_user user_id now store)
unfolding revoke_all_for_user any all
revoke_all-IsSpent user_id hash now store (taken, spent) = (hashes store taken, rows store spent)
  where
    hashes :
        (s : Store)
        → has_hash hash s ≡ true
        → has_hash hash (revoke_all_for_user user_id now s) ≡ true
    hashes [] h = cc h
    hashes (r ∷ s) h = elim (Bool-cases (text_eq r.user_id user_id && is_nil r.revoked_at)) [
      | inl y ↦ rw y (ground (arith, hashes s))
      | inr n ↦ rw n (ground (arith, hashes s))
    ]

    rows :
        (s : Store)
        → all (spent_row hash) s ≡ true
        → all (spent_row hash) (revoke_all_for_user user_id now s) ≡ true
    rows [] h = refl
    rows (r ∷ s) h = elim (Bool-cases (text_eq r.user_id user_id && is_nil r.revoked_at)) [
      | inl y ↦ rw y (ground (arith, rows s))
      | inr n ↦ rw n (ground (arith, rows s))
    ]

pub found-revoked :
    (store : Store) (hash : Text) (r : RefreshToken)
    → find_by_token_hash store hash ≡ some r
    → all (spent_row hash) store ≡ true
    → is_nil r.revoked_at ≡ false
unfolding find_by_token_hash all
found-revoked [] hash r h k = cc h
found-revoked (x ∷ store) hash r h k = elim (Bool-cases (text_eq x.token_hash hash)) [
  | inl y ↦
      let same : x ≡ r = ground arith in
      subst (λ (z : RefreshToken). is_nil z.revoked_at ≡ false) same (ground arith)
  | inr n ↦ found-revoked store hash r (rw (n, find_by_token_hash) at h) (ground arith)
]
