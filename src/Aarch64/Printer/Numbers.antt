-- ===== src/Aarch64/Printer/Numbers.antt =====
-- source/aarch64/printer.c, print_imm of a number that is not floating-point.
use amed.Base.{ℕ, suc, ◌-◌, ◌%◌, ◌^◌, Option, none, some, [], ◌∷◌, ◌++◌, leb, if◌then◌else◌}
use amed.Base.Int.{ℤ, pos, negsuc, pattern64}
use amed.Base.Text.{Text, codes, sprintf_s, hex, decimal, ◌>>=◌}
use amed.Utils.Datatype.{Datatype}

-- The first `switch`: the sign, and the magnitude of a signed data type.
abbrev pub negated : ℤ → Option (Text × ℕ)
negated (pos a) = some ([], a % 2 ^ 64)
negated (negsuc a) = if leb (2 ^ 63 - 1) a then none else some (b'-' ∷ [], suc a)

unfoldable pub sign_of : Datatype → ℤ → Option (Text × ℕ)
sign_of Datatype.s8 value = negated value
sign_of Datatype.s16 value = negated value
sign_of Datatype.s32 value = negated value
sign_of Datatype.s64 value = negated value
sign_of _ value = some ([], pattern64 value)

abbrev pub format8 : ℕ → Option Text
format8 v = sprintf_s 8 (decimal (v % 2 ^ 8))

abbrev pub format16 : ℕ → Option Text
format16 v = sprintf_s 8 (decimal (v % 2 ^ 16))

abbrev pub format32 : ℕ → Option Text
format32 v = sprintf_s 16 (codes "0x" ++ hex 8 (v % 2 ^ 32))

abbrev pub format64 : ℕ → Option Text
format64 v = sprintf_s 32 (codes "0x" ++ hex 16 v)

-- The second `switch`.
unfoldable pub format_of : Datatype → ℕ → Option Text
format_of Datatype.s8 v = format8 v
format_of Datatype.u8 v = format8 v
format_of Datatype.i8 v = format8 v
format_of Datatype.s16 v = format16 v
format_of Datatype.u16 v = format16 v
format_of Datatype.i16 v = format16 v
format_of Datatype.s32 v = format32 v
format_of Datatype.u32 v = format32 v
format_of Datatype.i32 v = format32 v
format_of _ v = format64 v

unfoldable pub print_number : ℤ → Datatype → Option Text
unfolding sign_of format_of
print_number value datatype = do
  (sign, magnitude) ← sign_of datatype value
  number ← format_of datatype magnitude
  some (sign ++ number)
