-- ===== src/Prelude/Int.antt =====
-- Signed integers over the native numbers, with what a C++ `int` does to a value out of its range.
use Prim.Native.Nat.{ℕ, suc, ◌+◌, ◌-◌, ◌%◌, ◌^◌, ◌<◌}
use mathlib.Core.Path.{◌≡◌}
use mathlib.Core.Bool.{Bool, false}
use native.Mathlib.Omega.{arith}
use nixd.Prelude.Tests.{ltb, leb, ◌==◌, if◌then◌else◌}

-- `negsuc n` is -(n + 1).
pub data ℤ : Type 0 where
  pos : ℕ → ℤ
  negsuc : ℕ → ℤ

abbrev pub pos_part : ℤ → ℕ
pos_part (pos n) = n
pos_part (negsuc n) = 0

abbrev pub neg_part : ℤ → ℕ
neg_part (pos n) = 0
neg_part (negsuc n) = suc n

abbrev pub sub_ℕ : ℕ → ℕ → ℤ
sub_ℕ a b = if leb b a then pos (a - b) else negsuc (b - a - 1)

-- `a - k` for a natural number `k`.
abbrev pub sub_int : ℤ → ℕ → ℤ
sub_int (pos n) k = sub_ℕ n k
sub_int (negsuc n) k = negsuc (n + k)

abbrev pub int_lt : ℤ → ℤ → Bool
int_lt a b = ltb (pos_part a + neg_part b) (pos_part b + neg_part a)

abbrev pub int_eq : ℤ → ℤ → Bool
int_eq a b = (pos_part a + neg_part b) == (pos_part b + neg_part a)

abbrev pub int_modulus : ℕ
int_modulus = 2 ^ 32

abbrev pub int_max : ℕ
int_max = 2 ^ 31 - 1

-- The conversion of an unsigned value to a 32-bit `int` (two's complement).
abbrev pub to_int : ℕ → ℤ
to_int n =
    if leb (n % 2 ^ 32) (2 ^ 31 - 1) then pos (n % 2 ^ 32) else negsuc (2 ^ 32 - n % 2 ^ 32 - 1)

pub to_int-small : (n : ℕ) → n < 2 ^ 31 → to_int n ≡ pos n
to_int-small n h = ground arith

-- An `int` lies from `INT_MIN` to `INT_MAX`.
pub to_int-above : (n : ℕ) → int_lt (to_int n) (negsuc int_max) ≡ false
to_int-above n = ground arith

pub to_int-below : (n : ℕ) → int_lt (pos int_max) (to_int n) ≡ false
to_int-below n = ground arith
