-- ===== src/Jobs/Backoff.antt =====
-- internal/jobs/backoff.go: the delay before a retry, up to the jitter. The last two lines of For
-- scale the delay by a float64 factor in [0.8, 1.2) and are not modelled. A time.Duration is an
-- int64, which doubling may overflow.
mod Samples
use alexandryn.Base.{
  ℕ, zero, suc, ◌+◌, ◌-◌, ◌%◌, ◌&&◌, ltb, if◌then◌else◌, ℤ, pos, negsuc, pos_part, ltb_ℤ, leb_ℤ,
}

abbrev two63 : ℕ
two63 = 9223372036854775808

-- The int64 with the bits of `m`, for m below 2^64.
abbrev from_bits : ℕ → ℤ
from_bits m = if ltb m two63 then pos m else negsuc (two63 + two63 - m - 1)

-- `delay *= 2`
pub double_int64 : ℤ → ℤ
double_int64 (pos n) = from_bits ((n + n) % (two63 + two63))
double_int64 (negsuc n) =
    from_bits ((two63 + two63 - (n + 1 + (n + 1)) % (two63 + two63)) % (two63 + two63))

-- The loop, over the rounds that are left; `break` ends it at the cap.
pub double_loop : ℕ → ℤ → ℤ → ℤ
unfolding double_int64
double_loop zero max delay = delay
double_loop (suc rounds) max delay =
    let doubled = double_int64 delay in
    let rest = double_loop rounds max doubled in
    if ltb_ℤ (pos 0) max && leb_ℤ max doubled then max else rest

pub record Backoff : Type 0 where
  pub base : ℤ
  pub max : ℤ

-- For, before the jitter is applied; attempts below 1 count as 1.
pub delay_for : Backoff → ℤ → ℤ
unfolding double_loop
delay_for b attempts =
    let delay = double_loop (pos_part attempts - 1) b.max b.base in
    if ltb_ℤ (pos 0) b.max && ltb_ℤ b.max delay then b.max else delay
