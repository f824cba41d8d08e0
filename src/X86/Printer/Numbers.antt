-- ===== src/X86/Printer/Numbers.antt =====
-- source/x86/printer.c, print_imm_value.
use amed.Base.{
  ℕ, suc, ◌+◌, ◌-◌, ◌%◌, ◌^◌, Option, none, some, [], ◌∷◌, ◌++◌, ltb, leb, if◌then◌else◌,
}
use amed.Base.Int.{ℤ, pos, negsuc, pattern64}
use amed.Base.Text.{Text, codes, sprintf_s, hex, decimal, ◌>>=◌}
use amed.Utils.Datatype.{Datatype}

-- The pattern of 32 bits that `%x` reads of an `int16_t`.
abbrev pub widen16 : ℕ → ℕ
widen16 v = if ltb (v % 2 ^ 16) (2 ^ 15) then v % 2 ^ 16 else 2 ^ 32 - 2 ^ 16 + v % 2 ^ 16

-- The first `switch`: the sign, and the pattern of the magnitude of a signed data type.
abbrev pub negated : ℤ → Option (Text × ℕ)
negated (pos a) = some ([], a % 2 ^ 64)
negated (negsuc a) = if leb (2 ^ 63 - 1) a then none else some (b'-' ∷ [], suc a)

unfoldable pub sign_of : Datatype → ℤ → Option (Text × ℕ)
sign_of Datatype.s8 value = negated value
sign_of Datatype.s16 value = negated value
sign_of Datatype.s32 value = negated value
sign_of Datatype.s64 value = negated value
sign_of _ value = some ([], pattern64 value)

abbrev pub format8 : ℕ → Option Text
format8 v = sprintf_s 4 (decimal (v % 2 ^ 8))

abbrev pub format16 : ℕ → Option Text
format16 v = sprintf_s 8 (codes "0x" ++ hex 4 (widen16 v))

abbrev pub format32 : ℕ → Option Text
format32 v = sprintf_s 12 (codes "0x" ++ hex 8 (v % 2 ^ 32))

abbrev pub format64 : ℕ → Option Text
format64 v = sprintf_s 20 (codes "0x" ++ hex 16 v)

-- The second `switch`.
unfoldable pub format_of : Datatype → ℕ → Option Text
format_of Datatype.s8 v = format8 v
format_of Datatype.u8 v = format8 v
format_of Datatype.i8 v = format8 v
format_of Datatype.s16 v = format16 v
format_of Datatype.u16 v = format16 v
format_of Datatype.i16 v = format16 v
format_of Datatype.s32 v = format32 v
format_of Datatype.u32 v = format32 v
format_of Datatype.i32 v = format32 v
format_of _ v = format64 v

unfoldable pub print_imm_value : ℤ → Datatype → Option Text
unfolding sign_of format_of
print_imm_value value datatype = do
  (sign, magnitude) ← sign_of datatype value
  number ← format_of datatype magnitude
  some (sign ++ number)
