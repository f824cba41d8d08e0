-- ===== src/Base/Word.antt =====
-- Casts to the fixed widths, shifts, and single bits.
use Prim.Native.Nat.{ℕ, ◌/◌, ◌%◌, ◌^◌, compare, Ordering}
use mathlib.Core.Bool.{Bool, true, false}

abbrev pub u8 : ℕ → ℕ
u8 n = n % 2 ^ 8

abbrev pub u16 : ℕ → ℕ
u16 n = n % 2 ^ 16

abbrev pub u32 : ℕ → ℕ
u32 n = n % 2 ^ 32

-- `width` bits of `x` from bit `low` up, as a C bit field reads them.
abbrev pub field : ℕ → ℕ → ℕ → ℕ
field low width x = x / 2 ^ low % 2 ^ width

-- One bit of `x`, as a C `bool` bit field reads it.
abbrev pub flag : ℕ → ℕ → Bool
flag low x = elim (compare (x / 2 ^ low % 2) 1) [ Ordering.eq ↦ true | _ ↦ false ]

-- A `bool` as the number 0 or 1.
abbrev pub bit : Bool → ℕ
bit true = 1
bit false = 0
