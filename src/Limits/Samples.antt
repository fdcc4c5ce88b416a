-- ===== src/Limits/Samples.antt =====
-- A limiter of one request for each period, over three networks' requests, and a semaphore.
use alexandryn.Base.{
  ℕ, ◌+◌, ◌≤◌, ◌<◌, ◌≡◌, refl, inl, inr, true, false, Option, none, some, List, [], ◌∷◌, arith, leb,
  if◌then◌else◌, Bool-cases, pos, lit, text_eq,
}
use alexandryn.Limits.{Bucket, Call, request, tick, answers}
use alexandryn.Limits.Refinement.{lone_answers, IsResting, answers-lone_answers}
use alexandryn.Limits.Semaphore.{new_semaphore, after, after-bounded}

-- The instant of the last request that was let through.
abbrev one_each : Bucket (Option ℕ)
one_each = record {
  new_limiter = none;
  allow = λ last now. elim last [
    | none ↦ (some now, true)
    | some before ↦ if leb (before + 10) now then (some now, true) else (some before, false)
  ];
}

abbrev LastUsedBy : Option ℕ → ℕ → Type 0
LastUsedBy none seen = Unit
LastUsedBy (some last) seen = last ≤ seen

one_each-IsResting : IsResting one_each 20 (lit "a")
one_each-IsResting = record {
  UsedBy = LastUsedBy;
  used = used;
  used_first = λ now. omega arith;
  rested = rested;
}
  where
    used :
        (l : Option ℕ) (seen now : ℕ)
        → LastUsedBy l seen
        → seen ≤ now
        → LastUsedBy (one_each.allow l now).0 now
    used none seen now u le = omega arith
    used (some last) seen now u le = elim (Bool-cases (leb (last + 10) now)) [
      | inl y ↦ rw y (omega arith)
      | inr n ↦ rw n (omega arith)
    ]

    rested :
        (l : Option ℕ) (seen now : ℕ)
        → LastUsedBy l seen
        → seen + 20 < now
        → one_each.allow l now ≡ one_each.allow none now
    rested none seen now u lt = refl
    rested (some last) seen now u lt =
        let y : leb (last + 10) now ≡ true = ground arith in rw y refl

abbrev traffic : List Call
traffic =
    request (lit "a") 1
    ∷ request (lit "b") 2
    ∷ request (lit "a") 5
    ∷ tick 12
    ∷ request (lit "a") 13
    ∷ tick 60
    ∷ request (lit "b") 61
    ∷ request (lit "a") 62
    ∷ []

traffic-answers : answers one_each 20 (lit "a") [] traffic ≡ true ∷ false ∷ true ∷ true ∷ []
unfolding answers text_eq
traffic-answers = refl

answers-lone_answers_example :
    answers one_each 20 (lit "a") [] traffic ≡ lone_answers one_each 20 (lit "a") none traffic
answers-lone_answers_example =
    answers-lone_answers one_each 20 (lit "a") one_each-IsResting traffic (
      omega arith,
      (
        omega arith,
        (
          omega arith,
          (omega arith, (omega arith, (omega arith, (omega arith, (omega arith, tt))))),
        ),
      ),
    )

after-bounded_run :
    let r = after (new_semaphore (pos 1)) 0 0 (true ∷ true ∷ false ∷ true ∷ []) in
    (r.0.capacity ≡ (new_semaphore (pos 1)).capacity)
    × (r.1.0 ≤ (new_semaphore (pos 1)).capacity + r.1.1)
    × (1 ≤ (new_semaphore (pos 1)).capacity)
after-bounded_run = after-bounded (pos 1) (true ∷ true ∷ false ∷ true ∷ [])
