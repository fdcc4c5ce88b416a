-- ===== src/Jobs/Store/Fencing.antt =====
-- The lease token as a fence between a job and the workers that lost it.
use alexandryn.Base.{
  Option, sym, ap, ◌∙◌, some, List, ℕ, ◌≡◌, refl, subst, inl, inr, Bool, true, false, [], ◌∷◌,
  arith, Bool-cases, Option-cases, filter, ℤ, Text, text_eq, conflict, error, ok, reject_if,
  >>=-eq-ok,
}
use alexandryn.Jobs.State.{is_terminal, Job}
use alexandryn.Jobs.Store.Rows.{claim_cases}
use alexandryn.Jobs.Store.{
  claim_row, claim_next, Table, update_where, affected_one, is_held, get_job, heartbeat, complete,
  fail, update_progress, reclaim_row, find_stale, reclaim_one, cancel_row, cancel_job,
}

-- What an update changes where no row passes its test, and where every row of an id was rewritten.
update_where-none :
    (test : Job → Bool) (change : Job → Job) (table : Table)
    → filter test table ≡ []
    → update_where test change table ≡ table
unfolding update_where filter
update_where-none test change [] h = refl
update_where-none test change (j ∷ table) h = elim (Bool-cases (test j)) [
  | inl t ↦ cc (rw (t, filter) at h)
  | inr n ↦
      rw n (
        ap (λ (rest : Table). j ∷ rest) (update_where-none test change table (rw (n, filter) at h)))
]

filter-update_where :
    (id : Text) (test : Job → Bool) (change : Job → Job) (table : Table)
    → ((j : Job) → text_eq j.id id ≡ false → test j ≡ false)
    → ((j : Job) → text_eq j.id id ≡ true → test (change j) ≡ false)
    → filter test (update_where (λ j. text_eq j.id id) change table) ≡ []
unfolding update_where filter
filter-update_where id test change [] other own = refl
filter-update_where id test change (j ∷ table) other own = elim (Bool-cases (text_eq j.id id)) [
  | inl t ↦ rw (t, own j t) (filter-update_where id test change table other own)
  | inr n ↦ rw (n, other j n) (filter-update_where id test change table other own)
]

-- Every write with the token finds no row: the table stays and the caller hears that it lost.
abbrev IsFencedOff : Table → Text → Text → Type 0
IsFencedOff table id token =
    (lease now next_run_at : ℕ) (dead : Bool) (cause : Text) (current total : ℤ)
    → (heartbeat table lease id token now ≡ (table, false))
      × (complete table id token now ≡ (table, false))
      × (fail table id token now next_run_at dead cause ≡ (table, false))
      × (update_progress table id token current total now ≡ table)

fenced_off :
    (table : Table) (id token : Text)
    → filter (is_held id token) table ≡ []
    → IsFencedOff table id token
unfolding heartbeat complete fail update_progress affected_one
fenced_off table id token h lease now next_run_at dead cause current total = (
  rw (update_where-none _ _ table h, h),
  rw (update_where-none _ _ table h, h),
  rw (update_where-none _ _ table h, h),
  update_where-none _ _ table h,
)

held_other : (id token : Text) (j : Job) → text_eq j.id id ≡ false → is_held id token j ≡ false
unfolding is_held
held_other id token j h = rw h

-- Once the reaper has reclaimed a job under a new token, a heartbeat, a completion, a failure or a
-- progress report with any other token changes nothing and, where it reports, reports that the
-- lease is gone.
pub reclaim_one-fences :
    (table : Table) (locked : Text → Bool) (id new old : Text) (now : ℕ) (backoff_for : ℕ → ℕ)
    → (reclaim_one table locked new id now backoff_for).1 ≡ true
    → text_eq new old ≡ false
    → IsFencedOff (reclaim_one table locked new id now backoff_for).0 id old
unfolding reclaim_one
reclaim_one-fences table locked id new old now backoff_for h differ =
    elim (Option-cases (find_stale table locked id now)) [
      | inl n ↦ cc (rw (n, reclaim_one) at h)
      | inr (j, f) ↦
          let e : (reclaim_one table locked new id now backoff_for).0
              ≡ update_where (λ k. text_eq k.id id) (reclaim_row backoff_for new now) table =
            rw (f, reclaim_one) in
          subst (λ (t : Table). IsFencedOff t id old) (sym e)
            (fenced_off _ id old (
              filter-update_where id (is_held id old) (reclaim_row backoff_for new now) table
                (λ k. held_other id old k) (λ k same. unfold is_held in rw (same, differ))))
    ]

-- A cancelled job is fenced off from every worker, whatever its token.
pub cancel_job-fences :
    (table after : Table) (id token : Text) (now : ℕ)
    → cancel_job table id now ≡ ok after
    → IsFencedOff after id token
unfolding cancel_job
cancel_job-fences table after id token now h =
    let (j, f, rest) = >>=-eq-ok (get_job table id) _ h in
    let (_, _, done) = >>=-eq-ok (reject_if (is_terminal j.state) (error conflict)) _ rest in
    let e : update_where (λ k. text_eq k.id id) (cancel_row now) table ≡ after = ground arith in
    subst (λ (t : Table). IsFencedOff t id token) e
      (fenced_off _ id token (
        filter-update_where id (is_held id token) (cancel_row now) table
          (λ k. held_other id token k) (λ k same. unfold is_held in ground arith)))

-- Once a job was claimed, every write with another token than that of the claim changes nothing, and
-- reports that the lease is gone where it reports; so a worker whose lease ran out is shut out also
-- when the job runs again elsewhere.
pub claim_next-fences :
    (table after : Table) (locked : Text → Bool) (lease : ℕ) (token worker old : Text)
    (kinds : List Text) (now : ℕ) (j : Job)
    → claim_next table locked lease token worker kinds now ≡ (after, some j)
    → text_eq token old ≡ false
    → IsFencedOff after j.id old
claim_next-fences table after locked lease token worker old kinds now j h differ =
    elim (claim_cases table locked lease token worker kinds now) [
      | inl (e, _) ↦ cc (ap (λ (r : Table × Option Job). r.1) (sym e ∙ h))
      | inr (k, _, _, _, _, e) ↦
          let tables : update_where (λ x. text_eq x.id k.id) (claim_row lease token worker now)
                table
              ≡ after =
            ap (λ (r : Table × Option Job). r.0) (sym e ∙ h) in
          let jobs : some (claim_row lease token worker now k) ≡ some j =
            ap (λ (r : Table × Option Job). r.1) (sym e ∙ h) in
          let named : k.id ≡ j.id = ground arith in
          subst (λ (x : Text). IsFencedOff after x old) named
            (subst (λ (t : Table). IsFencedOff t k.id old) tables
              (fenced_off _ k.id old (
                filter-update_where k.id (is_held k.id old) (claim_row lease token worker now) table
                  (λ x. held_other k.id old x) (λ x same. unfold is_held in rw (same, differ)))))
    ]
