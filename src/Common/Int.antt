-- ===== src/Common/Int.antt =====
-- Integers over the native numbers, and `int64` as the integers that it stands for.
use Prim.Native.Nat.{ℕ, ◌+◌, ◌-◌, ◌*◌, ◌^◌}
use mathlib.Core.Bool.{Bool, true, false}
use operator_lib.Common.Tests.{ltb, leb, if◌then◌else◌}

-- `negsuc n` is -(n + 1).
pub data ℤ : Type 0 where
  pos : ℕ → ℤ
  negsuc : ℕ → ℤ

-- `a < b` and `a <= b`
abbrev pub ltℤ : ℤ → ℤ → Bool
ltℤ (pos a) (pos b) = ltb a b
ltℤ (pos a) (negsuc b) = false
ltℤ (negsuc a) (pos b) = true
ltℤ (negsuc a) (negsuc b) = ltb b a

abbrev pub leℤ : ℤ → ℤ → Bool
leℤ (pos a) (pos b) = leb a b
leℤ (pos a) (negsuc b) = false
leℤ (negsuc a) (pos b) = true
leℤ (negsuc a) (negsuc b) = leb b a

-- a - b, as an integer.
abbrev pub sub_ℕ : ℕ → ℕ → ℤ
sub_ℕ a b = if leb b a then pos (a - b) else negsuc (b - a - 1)

-- `a *= 2` on an int64 `a`: the product wraps round modulo 2^64.
abbrev pub double_int64 : ℤ → ℤ
double_int64 (pos n) = if ltb (2 * n) (2 ^ 63) then pos (2 * n) else sub_ℕ (2 * n) (2 ^ 64)
double_int64 (negsuc n) =
    if leb (2 * n + 2) (2 ^ 63) then negsuc (2 * n + 1) else sub_ℕ (2 ^ 64) (2 * n + 2)
