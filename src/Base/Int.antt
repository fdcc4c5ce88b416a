-- ===== src/Base/Int.antt =====
-- Signed integers over the native numbers, for `int64` counters and `time.Duration`.
use Prim.Native.Nat.{ℕ, zero, suc, ◌+◌, ◌-◌, ◌<◌}
use mathlib.Core.Bool.{Bool}
use native.Mathlib.Omega.{arith}
use alexandryn.Base.Tests.{ltb, leb, ◌==◌, if◌then◌else◌}

-- `negsuc n` is -(n + 1).
pub data ℤ : Type 0 where
  pos : ℕ → ℤ
  negsuc : ℕ → ℤ

abbrev pub pos_part : ℤ → ℕ
pos_part (pos n) = n
pos_part (negsuc n) = 0

abbrev pub neg_part : ℤ → ℕ
neg_part (pos n) = 0
neg_part (negsuc n) = suc n

-- a - b, as an integer.
abbrev pub sub_ℕ : ℕ → ℕ → ℤ
sub_ℕ a b = if leb b a then pos (a - b) else negsuc (b - a - 1)

abbrev pub ltb_ℤ : ℤ → ℤ → Bool
ltb_ℤ a b = ltb (pos_part a + neg_part b) (pos_part b + neg_part a)

abbrev pub leb_ℤ : ℤ → ℤ → Bool
leb_ℤ a b = leb (pos_part a + neg_part b) (pos_part b + neg_part a)

infix 50 ◌<ℤ◌
abbrev pub ◌<ℤ◌ : ℤ → ℤ → Type 0
a <ℤ b = pos_part a + neg_part b < pos_part b + neg_part a

abbrev pub max_int64 : ℕ
max_int64 = 9223372036854775807

-- `x + 1` on an int64, which wraps to the least value above the greatest.
abbrev pub int64_suc : ℤ → ℤ
int64_suc (pos n) = if n == max_int64 then negsuc max_int64 else pos (n + 1)
int64_suc (negsuc zero) = pos 0
int64_suc (negsuc (suc n)) = negsuc n

pub int64_suc_grows : (z : ℤ) → z <ℤ pos max_int64 → z <ℤ int64_suc z
int64_suc_grows (pos n) h = ground arith
int64_suc_grows (negsuc zero) h = omega arith
int64_suc_grows (negsuc (suc n)) h = omega arith
