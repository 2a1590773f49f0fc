-- ===== src/Common/Ints.antt =====
-- Signed machine integers. An `i32`, an `i64`, a `c_int` and a `c_long` are integers over the
-- native numbers; a cast that can wrap is written out.
use Prim.Native.Nat.{ℕ, ◌-◌, ◌%◌, ◌^◌, ◌<◌}
use mathlib.Core.Path.{◌≡◌}
use mathlib.Core.Bool.{Bool, true, false}
use native.Mathlib.Omega.{arith}
use libriscv_rust_binding.Common.Tests.{ltb, ◌==◌, if◌then◌else◌}

-- `negsuc n` is -(n + 1).
pub data ℤ : Type 0 where
  pos : ℕ → ℤ
  negsuc : ℕ → ℤ

-- `z < 0`, `z > 0` and `z == 0`.
abbrev pub is_negative : ℤ → Bool
is_negative (pos n) = false
is_negative (negsuc n) = true

abbrev pub is_positive : ℤ → Bool
is_positive (pos n) = ltb 0 n
is_positive (negsuc n) = false

abbrev pub is_zero : ℤ → Bool
is_zero (pos n) = n == 0
is_zero (negsuc n) = false

-- `z as u64`, in two's complement.
abbrev pub to_u64 : ℤ → ℕ
to_u64 (pos n) = n % 2 ^ 64
to_u64 (negsuc n) = 2 ^ 64 - 1 - n % 2 ^ 64

-- The low 32 bits of `z` in two's complement.
abbrev pub low_u32 : ℤ → ℕ
low_u32 (pos n) = n % 2 ^ 32
low_u32 (negsuc n) = 2 ^ 32 - 1 - n % 2 ^ 32

-- `z as i32`: the low 32 bits, read as a signed number.
abbrev pub to_i32 : ℤ → ℤ
to_i32 z = let b = low_u32 z in if ltb b (2 ^ 31) then pos b else negsuc (2 ^ 32 - 1 - b)

-- `flag as i32`.
abbrev pub from_bool : Bool → ℤ
from_bool true = pos 1
from_bool false = pos 0

-- `u32::MAX`, which is also `c_uint::MAX`.
abbrev pub u32_max : ℕ
u32_max = 0xffff_ffff

-- A negative number that an `i32` holds is itself after the cast.
pub to_i32-negsuc : (n : ℕ) → n < 2 ^ 31 → to_i32 (negsuc n) ≡ negsuc n
to_i32-negsuc n h = ground arith

abbrev pub eq_ℤ : ℤ → ℤ → Bool
eq_ℤ (pos m) (pos n) = m == n
eq_ℤ (negsuc m) (negsuc n) = m == n
eq_ℤ (pos m) (negsuc n) = false
eq_ℤ (negsuc m) (pos n) = false
