-- ===== src/Jobs/Store/Rows.antt =====
-- Rows of a table with unique ids: what the reads return, and what an update by id rewrites.
use alexandryn.Base.{
  ℕ, ◌≤◌, ◌≡◌, refl, sym, ap, ◌∙◌, subst, ◌⊎◌, inl, inr, Bool, true, false, not, ◌&&◌, none, some,
  List, [], ◌∷◌, ◌++◌, arith, leb, leb→le, Bool-cases, Option-cases, &&-true, filter, any, All,
  Text, text_eq, text_eq_iff, Error, Result, ok, err,
}
use native.Mathlib.Nat.{le_refl}
use alexandryn.Jobs.State.{Job, is_terminal}
use alexandryn.Jobs.Store.{
  cancel_job, cancel_row, claim_next, claim_row, claimable, reclaim_one, reclaim_row, Table,
  update_where, get_job, select_oldest, find_stale, is_stale,
}

-- A statement that is refused leaves the table as it was.
abbrev pub settle : Table → Result Table → Table
settle table (ok after) = after
settle table (err e) = table

-- The row is in the table.
abbrev pub Has : Job → Table → Type 0
Has j [] = ⊥
Has j (k ∷ table) = (k ≡ j) ⊎ Has j table

abbrev pub IsKeyed : Table → Type 0
IsKeyed [] = Unit
IsKeyed (j ∷ table) = All (λ k. text_eq j.id k.id ≡ false) table × IsKeyed table

pub All-Has : (P : Job → Type 0) (j : Job) (table : Table) → All P table → Has j table → P j
All-Has P j [] a h = absurd h
All-Has P j (k ∷ table) (p, ps) (inl e) = subst P e p
All-Has P j (k ∷ table) (p, ps) (inr h) = All-Has P j table ps h

others :
    (a : Text) (j : Job) (table : Table)
    → a ≡ j.id
    → All (λ k. text_eq a k.id ≡ false) table
    → All (λ k. text_eq k.id j.id ≡ true → k ≡ j) table
others a j [] e h = tt
others a j (k ∷ table) e (p, ps) = (
  λ t. cc (p, (text_eq_iff a k.id).1 (e ∙ sym ((text_eq_iff k.id j.id).0 t))),
  others a j table e ps,
)

-- A row with the id of a row of the table is that row.
pub only_row :
    (j : Job) (table : Table)
    → IsKeyed table
    → Has j table
    → All (λ k. text_eq k.id j.id ≡ true → k ≡ j) table
only_row j [] keyed h = absurd h
only_row j (k ∷ table) (apart, keyed) (inl e) =
    (λ t. e, others k.id j table (ap (λ (x : Job). x.id) e) apart)
only_row j (k ∷ table) (apart, keyed) (inr h) = (
  λ t. cc (All-Has (λ x. text_eq k.id x.id ≡ false) j table apart h, t),
  only_row j table keyed h,
)

pub get_job-Has :
    (table : Table) (id : Text) (j : Job) → get_job table id ≡ ok j → Has j table × (j.id ≡ id)
unfolding get_job
get_job-Has [] id j h = cc h
get_job-Has (k ∷ table) id j h = elim (Bool-cases (text_eq k.id id)) [
  | inl t ↦
      let same : k ≡ j = ground arith in
      (inl same, ap (λ (x : Job). x.id) (sym same) ∙ (text_eq_iff k.id id).0 t)
  | inr n ↦ let (i, e) = get_job-Has table id j (rw (n, get_job) at h) in (inr i, e)
]

find_stale-Has :
    (table : Table) (locked : Text → Bool) (id : Text) (now : ℕ) (j : Job)
    → find_stale table locked id now ≡ some j
    → Has j table × (j.id ≡ id) × (is_stale now j ≡ true)
unfolding find_stale
find_stale-Has [] locked id now j h = cc h
find_stale-Has (k ∷ table) locked id now j h =
    elim (Bool-cases (text_eq k.id id && (is_stale now k && not (locked k.id)))) [
      | inl t ↦
          let same : k ≡ j = ground arith in
          let (named, rest) = &&-true (text_eq k.id id) _ t in
          let (stale, _) = &&-true (is_stale now k) _ rest in
          (
            inl same,
            ap (λ (x : Job). x.id) (sym same) ∙ (text_eq_iff k.id id).0 named,
            subst (λ (x : Job). is_stale now x ≡ true) same stale,
          )
      | inr n ↦
          let (i, e, s) = find_stale-Has table locked id now j (rw (n, find_stale) at h) in
          (inr i, e, s)
    ]

pub All-map :
    (P Q : Job → Type 0) → ((j : Job) → P j → Q j) → (table : Table) → All P table → All Q table
All-map P Q f [] h = tt
All-map P Q f (j ∷ table) (p, ps) = (f j p, All-map P Q f table ps)

-- The row selected passes the test, and no row that passes it is older; none is selected only where
-- none passes.
select_oldest-Has :
    (test : Job → Bool) (table : Table)
    → ((select_oldest test table ≡ none) × All (λ k. test k ≡ false) table)
      ⊎ ((j : Job) × (select_oldest test table ≡ some j)
          × Has j table
          × (test j ≡ true)
          × All (λ k. test k ≡ true → j.available_at ≤ k.available_at) table)
unfolding select_oldest
select_oldest-Has test [] = inl (refl, tt)
select_oldest-Has test (j ∷ table) = elim (select_oldest-Has test table) [
  | inl (p, n) ↦ elim (Bool-cases (test j)) [
    | inl t ↦ inr (
      j,
      rw (t, p),
      inl refl,
      t,
      (
        λ _. le_refl j.available_at,
        All-map (λ k. test k ≡ false) (λ k. test k ≡ true → j.available_at ≤ k.available_at)
            (λ k f g. cc (f, g)) table n,
      ),
    )
    | inr f ↦ inl (rw (f, p), (f, n))
  ]
  | inr (k, p, i, s, least) ↦ elim (Bool-cases (test j)) [
    | inl t ↦ elim (Bool-cases (leb j.available_at k.available_at)) [
      | inl le ↦ inr (
        j,
        rw (t, p, le),
        inl refl,
        t,
        (
          λ _. le_refl j.available_at,
          All-map (λ x. test x ≡ true → k.available_at ≤ x.available_at)
              (λ x. test x ≡ true → j.available_at ≤ x.available_at)
              (λ x f g. omega (arith, leb→le j.available_at k.available_at le, f g)) table least,
        ),
      )
      | inr gt ↦ inr (k, rw (t, p, gt), inr i, s, (λ _. ground arith, least))
    ]
    | inr f ↦ inr (k, rw (f, p), inr i, s, (λ g. cc (f, g), least))
  ]
]

pub All-filter :
    (P : Job → Type 0) (test : Job → Bool) (table : Table) → All P table → All P (filter test table)
unfolding filter
All-filter P test [] h = tt
All-filter P test (j ∷ table) (p, ps) = elim (Bool-cases (test j)) [
  | inl t ↦ rw (t, filter) (p, All-filter P test table ps)
  | inr n ↦ rw (n, filter) (All-filter P test table ps)
]

pub IsKeyed-filter :
    (test : Job → Bool) (table : Table) → IsKeyed table → IsKeyed (filter test table)
unfolding filter
IsKeyed-filter test [] h = tt
IsKeyed-filter test (j ∷ table) (p, ps) = elim (Bool-cases (test j)) [
  | inl t ↦
      rw (t, filter)
        (All-filter (λ k. text_eq j.id k.id ≡ false) test table p, IsKeyed-filter test table ps)
  | inr n ↦ rw (n, filter) (IsKeyed-filter test table ps)
]

pub All-append_one :
    (P : Job → Type 0) (table : Table) (j : Job) → All P table → P j → All P (table ++ (j ∷ []))
All-append_one P [] j h p = (p, tt)
All-append_one P (k ∷ table) j (q, qs) p = (q, All-append_one P table j qs p)

pub IsKeyed-append_one :
    (table : Table) (j : Job)
    → any (λ k. text_eq k.id j.id) table ≡ false
    → IsKeyed table
    → IsKeyed (table ++ (j ∷ []))
unfolding any
IsKeyed-append_one [] j n h = (tt, tt)
IsKeyed-append_one (k ∷ table) j n (p, ps) = (
  All-append_one (λ x. text_eq k.id x.id ≡ false) table j p (ground arith),
  IsKeyed-append_one table j (ground arith) ps,
)

-- ClaimNext finds nothing claimable, or claims the oldest claimable row that is not locked.
pub claim_cases :
    (table : Table) (locked : Text → Bool) (lease : ℕ) (token worker : Text) (kinds : List Text)
    (now : ℕ)
    → ((claim_next table locked lease token worker kinds now ≡ (table, none))
        × All (λ k. (claimable kinds now k && not (locked k.id)) ≡ false) table)
      ⊎ ((j : Job) × Has j table
          × (claimable kinds now j ≡ true)
          × (locked j.id ≡ false)
          × All
              (λ k.
                (claimable kinds now k && not (locked k.id)) ≡ true
                → j.available_at ≤ k.available_at)
              table
          × (claim_next table locked lease token worker kinds now ≡ (
            update_where (λ k. text_eq k.id j.id) (claim_row lease token worker now) table,
            some (claim_row lease token worker now j),
          )))
claim_cases table locked lease token worker kinds now =
    elim (select_oldest-Has (λ j. claimable kinds now j && not (locked j.id)) table) [
      | inl (p, n) ↦ inl (unfold claim_next in rw (p, claim_next), n)
      | inr (j, p, there, test, least) ↦
          let (c, free) = &&-true (claimable kinds now j) _ test in
          inr (j, there, c, ground arith, least, unfold claim_next in rw (p, claim_next))
    ]

-- A reclaim finds no stale row under the id, or rewrites it.
pub reclaim_cases :
    (table : Table) (locked : Text → Bool) (token id : Text) (now : ℕ) (backoff_for : ℕ → ℕ)
    → (reclaim_one table locked token id now backoff_for ≡ (table, false))
      ⊎ ((j : Job) × Has j table
          × (j.id ≡ id)
          × (is_stale now j ≡ true)
          × (reclaim_one table locked token id now backoff_for ≡ (
            update_where (λ k. text_eq k.id j.id) (reclaim_row backoff_for token now) table,
            true,
          )))
reclaim_cases table locked token id now backoff_for =
    elim (Option-cases (find_stale table locked id now)) [
      | inl n ↦ inl (unfold reclaim_one in rw (n, reclaim_one))
      | inr (j, f) ↦
          let (there, named, stale) = find_stale-Has table locked id now j f in
          inr (j, there, named, stale, rw named (unfold reclaim_one in rw (f, reclaim_one)))
    ]

pub All-both :
    (P Q : Job → Type 0) (table : Table) → All P table → All Q table → All (λ j. P j × Q j) table
All-both P Q [] p q = tt
All-both P Q (j ∷ table) (p, ps) (q, qs) = ((p, q), All-both P Q table ps qs)

pub Job-cases : (r : Result Job) → ((j : Job) × (r ≡ ok j)) ⊎ ((e : Error) × (r ≡ err e))
Job-cases (ok j) = inl (j, refl)
Job-cases (err e) = inr (e, refl)

-- A refused cancel leaves the table; an accepted one rewrites the job that is there.
pub cancel_cases :
    (table : Table) (id : Text) (now : ℕ)
    → (settle table (cancel_job table id now) ≡ table)
      ⊎ ((j : Job) × Has j table
          × (is_terminal j.state ≡ false)
          × (settle table (cancel_job table id now)
              ≡ update_where (λ k. text_eq k.id j.id) (cancel_row now) table))
cancel_cases table id now = elim (Job-cases (get_job table id)) [
  | inr (e, f) ↦ inl (unfold cancel_job in rw (f, cancel_job))
  | inl (j, f) ↦
      let (there, named) = get_job-Has table id j f in
      elim (Bool-cases (is_terminal j.state)) [
        | inl t ↦ inl (unfold cancel_job in rw (f, t, cancel_job))
        | inr n ↦ inr (j, there, n, rw named (unfold cancel_job in rw (f, n, cancel_job)))
      ]
]
