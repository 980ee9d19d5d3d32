-- ===== src/Common/Int.antt =====
-- Signed integers over the native numbers: the finite numbers of JSON and of JavaScript that the
-- program compares and subtracts.
use Prim.Native.Nat.{ℕ, suc, ◌+◌, ◌-◌}
use mathlib.Core.Bool.{Bool}
use metamodels.Common.Tests.{ltb, leb, if◌then◌else◌}

-- `negsuc n` is -(n + 1).
pub data ℤ : Type 0 where
  pos : ℕ → ℤ
  negsuc : ℕ → ℤ

abbrev pub pos_part : ℤ → ℕ
pos_part (pos n) = n
pos_part (negsuc n) = 0

abbrev pub neg_part : ℤ → ℕ
neg_part (pos n) = 0
neg_part (negsuc n) = suc n

-- `a < b`
abbrev pub lt_int : ℤ → ℤ → Bool
lt_int a b = ltb (pos_part a + neg_part b) (pos_part b + neg_part a)

-- `a - b` of naturals, and of integers
abbrev pub sub_ℕ : ℕ → ℕ → ℤ
sub_ℕ a b = if leb b a then pos (a - b) else negsuc (b - a - 1)

abbrev pub sub_int : ℤ → ℤ → ℤ
sub_int a b = sub_ℕ (pos_part a + neg_part b) (pos_part b + neg_part a)

abbrev pub add_int : ℤ → ℤ → ℤ
add_int a b = sub_ℕ (pos_part a + pos_part b) (neg_part a + neg_part b)
