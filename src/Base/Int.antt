-- ===== src/Base/Int.antt =====
-- Signed numbers, and the reading of a bit pattern in two's complement.
use Prim.Native.Nat.{ℕ, suc, ◌-◌, ◌*◌, ◌%◌, ◌^◌}
use mathlib.Core.Bool.{Bool, true, false}
use amed.Base.Tests.{ltb, ◌==◌, if◌then◌else◌}

-- `negsuc n` is -(n + 1).
pub data ℤ : Type 0 where
  pos : ℕ → ℤ
  negsuc : ℕ → ℤ

-- The value that a pattern of `width` bits, below `2 ^ width`, stands for.
abbrev pub signed : ℕ → ℕ → ℤ
signed width v = if ltb v (2 ^ (width - 1)) then pos v else negsuc (2 ^ width - v - 1)

-- The product with a number that is not negative.
abbrev pub mul_ℕ : ℤ → ℕ → ℤ
mul_ℕ (pos a) n = pos (a * n)
mul_ℕ (negsuc a) n = if n == 0 then pos 0 else negsuc (suc a * n - 1)

abbrev pub is_zero : ℤ → Bool
is_zero (pos a) = a == 0
is_zero (negsuc a) = false

abbrev pub is_negative : ℤ → Bool
is_negative (pos a) = false
is_negative (negsuc a) = true

-- The 64-bit pattern of a number.
abbrev pub pattern64 : ℤ → ℕ
pattern64 (pos a) = a % 2 ^ 64
pattern64 (negsuc a) = 2 ^ 64 - 1 - a % 2 ^ 64
