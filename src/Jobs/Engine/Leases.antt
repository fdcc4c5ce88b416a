-- ===== src/Jobs/Engine/Leases.antt =====
-- The pool's invariant under the two steps that give out a lease token.
use alexandryn.Base.{
  ℕ, suc, ◌≡◌, refl, inl, inr, Bool, true, Option, some, List, [], ◌∷◌, arith, All, Text, text_eq,
}
use alexandryn.Jobs.State.{Job}
use alexandryn.Jobs.Store.{
  update_where, has_token, claimable, claim_row, claim_next, reclaim_row, reclaim_one,
}
use alexandryn.Jobs.Store.Rows.{Has, All-map, claim_cases, reclaim_cases}
use alexandryn.Jobs.Registry.{kinds}
use alexandryn.Jobs.Engine.{Pool, token_of, Engine, add_claimed}
use alexandryn.Jobs.Engine.Rows.{
  Numbered, Linked, IsSafeRow, IsNumbered, IsSafe, by_id, later_row, later_flights, claim_budget,
  stopped, held_token,
}

module _ (pool : Pool) (token : ℕ → Text)
    (fresh : (m n : ℕ) → text_eq (token m) (token n) ≡ true → m ≡ n) where
  abbrev Safe : Engine → Type 0
  Safe = IsSafe pool token

  abbrev Row : ℕ → List Job → Job → Type 0
  Row = IsSafeRow pool token

  -- The next token is on no row yet, and in no worker's hands.
  not_on_row :
      (used : ℕ) (o : Option Text)
      → Numbered pool token used o
      → has_token (token used) o ≡ true
      → ⊥
  not_on_row used o (inl e) h = cc (rw e at h)
  not_on_row used o (inr (n, lt, e)) h = let same = fresh n used (rw e at h) in absurd (omega arith)

  not_in_hands :
      (used : ℕ) (f : Job)
      → IsNumbered pool token used f
      → has_token (token_of f) (some (token used)) ≡ true
      → ⊥
  not_in_hands used f (n, lt, e) h = let same = fresh used n (rw e at h) in absurd (omega arith)

  unlinked :
      (used : ℕ) (fs : List Job) (j : Job)
      → j.lease_token ≡ some (token used)
      → All (IsNumbered pool token used) fs
      → All (λ f. Linked pool token f j) fs
  unlinked used [] j e h = tt
  unlinked used (f ∷ fs) j e (n, ns) = (
    (λ held.
        absurd (not_in_hands used f n (rw e at (held_token pool token f.id (token_of f) j held)))),
    unlinked used fs j e ns,
  )

  pub poll-Safe :
      (e : Engine) (locked : Text → Bool) (worker : Text) (now : ℕ)
      → Safe e
      → Safe (
          add_claimed e (
            claim_next e.table locked pool.lease_duration
              (token e.used)
              worker
              (kinds pool.registry)
              now))
  poll-Safe e locked worker now s =
      elim (claim_cases e.table locked pool.lease_duration (token e.used) worker
        (kinds pool.registry) now) [
          | inl (c, _) ↦ rw c (record {
            keyed = s.keyed;
            rows =
                All-map (Row e.used e.in_flight) (Row (suc e.used) e.in_flight)
                  (λ j r. later_row pool token e.used e.in_flight j r) e.table s.rows;
            flights = later_flights pool token e.used e.in_flight s.flights;
          })
          | inr (j, there, c, _, _, d) ↦ rw d (claimed j there c)
        ]
    where
      claimed :
          (j : Job)
          → Has j e.table
          → claimable (kinds pool.registry) now j ≡ true
          → Safe (record {
            table =
                update_where
                  (λ k. text_eq k.id j.id)
                  (claim_row pool.lease_duration (token e.used) worker now)
                  e.table;
            in_flight = claim_row pool.lease_duration (token e.used) worker now j ∷ e.in_flight;
            used = suc e.used;
          })
      claimed j there c =
          let mine = claim_row pool.lease_duration (token e.used) worker now j in
          let (keyed, rows) =
            by_id pool token e.used (suc e.used) e.in_flight (mine ∷ e.in_flight) j
              (claim_row pool.lease_duration (token e.used) worker now) e.table (λ k. refl) there
              (λ (b, n, l). (
                claim_budget pool token (kinds pool.registry) pool.lease_duration (token e.used)
                    worker now j c b,
                inr (e.used, omega arith, refl),
                ((λ h. (refl, refl)), unlinked e.used e.in_flight mine refl s.flights),
              ))
              (λ k r.
                let (b, n, l) = later_row pool token e.used e.in_flight k r in
                (
                  b,
                  n,
                  (
                    (λ h. absurd (
                        not_on_row e.used k.lease_token r.1
                          (held_token pool token mine.id (token e.used) k h))),
                    l,
                  ),
                ))
              (s.keyed, s.rows) in
          record {
            keyed = keyed;
            rows = rows;
            flights = (
              (e.used, omega arith, refl),
              later_flights pool token e.used e.in_flight s.flights,
            );
          }

  pub reap-Safe :
      (e : Engine) (locked : Text → Bool) (id : Text) (now : ℕ)
      → Safe e
      → Safe (record e {
        table = (reclaim_one e.table locked (token e.used) id now pool.backoff_for).0;
        used = suc e.used;
      })
  reap-Safe e locked id now s =
      elim (reclaim_cases e.table locked (token e.used) id now pool.backoff_for) [
        | inl c ↦ rw c (record {
          keyed = s.keyed;
          rows =
              All-map (Row e.used e.in_flight) (Row (suc e.used) e.in_flight)
                (λ j r. later_row pool token e.used e.in_flight j r) e.table s.rows;
          flights = later_flights pool token e.used e.in_flight s.flights;
        })
        | inr (j, there, _, _, d) ↦
            let (keyed, rows) =
              by_id pool token e.used (suc e.used) e.in_flight e.in_flight j
                (reclaim_row pool.backoff_for (token e.used) now) e.table (λ k. refl) there
                (λ (b, n, l).
                  stopped pool token (suc e.used) e.in_flight j
                    (reclaim_row pool.backoff_for (token e.used) now j) refl refl refl
                    (λ x. ground arith) (λ w. ground arith) (inr (e.used, omega arith, refl)) b)
                (λ k r. later_row pool token e.used e.in_flight k r) (s.keyed, s.rows) in
            rw d (record {
              keyed = keyed;
              rows = rows;
              flights = later_flights pool token e.used e.in_flight s.flights;
            })
      ]
