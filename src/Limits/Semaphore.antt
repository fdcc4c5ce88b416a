-- ===== src/Limits/Semaphore.antt =====
-- internal/adapters/sources/concurrency.go: the semaphore, as the capacity and the length of its
-- channel. A call is one step, since a channel operation is.
use alexandryn.Base.{
  ℕ, ◌+◌, ◌-◌, ◌≤◌, ◌≡◌, refl, inl, inr, Bool, true, false, List, [], ◌∷◌, arith, ltb,
  if◌then◌else◌, Bool-cases, ℤ, pos, negsuc, pos_part, leb_ℤ,
}

abbrev default_outbound_limit : ℕ
default_outbound_limit = 50

pub record Semaphore : Type 0 where
  pub capacity : ℕ
  pub in_flight : ℕ

-- NewSemaphore
unfoldable pub new_semaphore : ℤ → Semaphore
new_semaphore n = record {
  capacity = if leb_ℤ n (pos 0) then default_outbound_limit else pos_part n;
  in_flight = 0;
}

-- TryAcquire
try_acquire : Semaphore → Semaphore × Bool
try_acquire s =
    if ltb s.in_flight s.capacity
    then (record s { in_flight = s.in_flight + 1 }, true)
    else (s, false)

-- Release; without a slot taken it does nothing.
release : Semaphore → Semaphore
release s = if ltb 0 s.in_flight then record s { in_flight = s.in_flight - 1 } else s

-- Calls of all the goroutines, true for TryAcquire, with the successes and the releases so far.
unfoldable pub after : Semaphore → ℕ → ℕ → List Bool → Semaphore × (ℕ × ℕ)
unfolding try_acquire release
after s won returned [] = (s, (won, returned))
after s won returned (true ∷ calls) =
    let (later, taken) = try_acquire s in
    after later (if taken then won + 1 else won) returned calls
after s won returned (false ∷ calls) = after (release s) won (returned + 1) calls

after_bounded :
    (s : Semaphore) (won returned : ℕ) (calls : List Bool)
    → s.in_flight ≤ s.capacity
    → won ≤ s.in_flight + returned
    → let r = after s won returned calls in
      (r.0.capacity ≡ s.capacity) × (r.0.in_flight ≤ s.capacity) × (r.1.0 ≤ r.0.in_flight + r.1.1)
unfolding after release try_acquire
after_bounded s won returned [] full owed = (refl, full, owed)
after_bounded s won returned (true ∷ calls) full owed =
    elim (Bool-cases (ltb s.in_flight s.capacity)) [
      | inl free ↦
          rw (free, after, try_acquire)
            (after_bounded (record s { in_flight = s.in_flight + 1 }) (won + 1) returned calls
              (ground arith) (omega arith))
      | inr busy ↦ rw (busy, after, try_acquire) (after_bounded s won returned calls full owed)
    ]
after_bounded s won returned (false ∷ calls) full owed = elim (Bool-cases (ltb 0 s.in_flight)) [
  | inl some_held ↦
      rw (some_held, after, release)
        (after_bounded (record s { in_flight = s.in_flight - 1 }) won (returned + 1) calls
          (omega arith) (ground arith))
  | inr none_held ↦
      rw (none_held, after, release) (after_bounded s won (returned + 1) calls full (omega arith))
]

-- However the goroutines' calls interleave, the acquisitions that succeeded exceed the releases by at
-- most the capacity, which is at least 1: the number asked for when that is positive, else fifty.
pub after-bounded :
    (n : ℤ) (calls : List Bool)
    → let r = after (new_semaphore n) 0 0 calls in
      (r.0.capacity ≡ (new_semaphore n).capacity)
      × (r.1.0 ≤ (new_semaphore n).capacity + r.1.1)
      × (1 ≤ (new_semaphore n).capacity)
unfolding new_semaphore
after-bounded n calls =
    let (same, full, owed) =
      after_bounded (new_semaphore n) 0 0 calls (omega arith) (omega arith) in
    (same, omega arith, positive n)
  where
    positive : (z : ℤ) → 1 ≤ (new_semaphore z).capacity
    positive (pos z) = ground arith
    positive (negsuc z) = ground arith
