-- ===== src/X86/Printer/Values.antt =====
-- The numbers that source/x86/printer.c prints, against a reader of its notation.
use amed.Base.{
  ℕ, suc, ◌-◌, ◌%◌, ◌^◌, ◌<◌, ◌≡◌, ◌⊎◌, inl, inr, refl, arith, Bool, true, false, ◌&&◌, ◌||◌,
  Option, none, some, [], ◌∷◌, ◌++◌, leb, ◌==◌, Bool-cases,
}
use amed.Base.Int.{ℤ, pos, negsuc, pattern64}
use amed.Base.Text.{Text, ◌>>=◌}
use amed.Utils.Datatype.{Datatype}
use amed.X86.Printer.Formats.{
  read_imm, Outcome, format8_lem, format16_lem, format32_lem, format64_lem,
}
use amed.X86.Printer.{
  print_imm_value, sign_of, format_of, negated, format8, format16, format32, format64,
}

-- What a call should print: the sign, and the magnitude in the width of its data type.
abbrev imm_width : Datatype → ℕ
imm_width Datatype.s8 = 8
imm_width Datatype.u8 = 8
imm_width Datatype.i8 = 8
imm_width Datatype.s16 = 16
imm_width Datatype.u16 = 16
imm_width Datatype.i16 = 16
imm_width Datatype.s32 = 32
imm_width Datatype.u32 = 32
imm_width Datatype.i32 = 32
imm_width _ = 64

abbrev has_sign : Datatype → Bool
has_sign Datatype.s8 = true
has_sign Datatype.s16 = true
has_sign Datatype.s32 = true
has_sign Datatype.s64 = true
has_sign _ = false

abbrev shown_at : Bool → ℕ → ℤ → Bool × ℕ
shown_at true width (negsuc a) = (true, suc a % 2 ^ width)
shown_at _ width value = (false, pattern64 value % 2 ^ width)

abbrev pub shown : Datatype → ℤ → Bool × ℕ
shown datatype value = shown_at (has_sign datatype) (imm_width datatype) value

-- Whether a magnitude is too long for its width, or has no negation in 64 bits.
abbrev too_long : ℕ → ℕ → Bool
too_long width n = width == 16 && leb (2 ^ 15) n

abbrev is_least : ℤ → Bool
is_least (pos a) = false
is_least (negsuc a) = leb (2 ^ 63 - 1) a

abbrev pub is_refused : Datatype → ℤ → Bool
is_refused datatype value =
    has_sign datatype && is_least value || too_long (imm_width datatype) ((shown datatype value).1)

pub Printed : Option Text → Bool → Bool × ℕ → Type 0
Printed o r p =
    ((r ≡ true) × (o ≡ none))
    ⊎ ((r ≡ false) × ((text : Text) × (o ≡ some text) × (read_imm text ≡ p)))

with_sign : Text → Option Text → Option Text
with_sign sign o = do number ← o; some (sign ++ number)

plain_lem :
    (o : Option Text) (r : Bool) (n : ℕ) → Outcome o r n → Printed (with_sign [] o) r (false, n)
unfolding with_sign Printed
plain_lem o r n (inl (h, e)) = inl (h, rw e refl)
plain_lem o r n (inr (h, (text, e, read, opposite))) = inr (h, (text, rw e refl, read))

minus_lem :
    (o : Option Text) (r : Bool) (n : ℕ)
    → Outcome o r n
    → Printed (with_sign (b'-' ∷ []) o) r (true, n)
unfolding with_sign Printed
minus_lem o r n (inl (h, e)) = inl (h, rw e refl)
minus_lem o r n (inr (h, (text, e, read, opposite))) = inr (h, (b'-' ∷ text, rw e refl, opposite))

-- A format of the source, and the width that it prints.
abbrev IsFormat : (ℕ → Option Text) → ℕ → Type 0
IsFormat f width =
    (m : ℕ) → m < 2 ^ 64 → Outcome (f m) (too_long width (m % 2 ^ width)) (m % 2 ^ width)

pattern64-lt : (value : ℤ) → pattern64 value < 2 ^ 64
pattern64-lt (pos a) = omega arith
pattern64-lt (negsuc a) = omega arith

unsigned_lem :
    (f : ℕ → Option Text) (width : ℕ)
    → IsFormat f width
    → (value : ℤ)
    → Printed
        (with_sign [] (f (pattern64 value)))
        (too_long width ((shown_at false width value).1))
        (shown_at false width value)
unsigned_lem f width h value =
    plain_lem (f (pattern64 value)) _ _ (h (pattern64 value) (pattern64-lt value))

-- The negation of the least number is left undefined by C.
signed_lem :
    (f : ℕ → Option Text) (width : ℕ)
    → IsFormat f width
    → (value : ℤ)
    → Printed
        (do (sign, m) ← negated value; with_sign sign (f m))
        (is_least value || too_long width ((shown_at true width value).1))
        (shown_at true width value)
unfolding with_sign Printed
signed_lem f width h (pos a) = plain_lem (f (a % 2 ^ 64)) _ _ (h (a % 2 ^ 64) (omega arith))
signed_lem f width h (negsuc a) = elim (Bool-cases (leb (2 ^ 63 - 1) a)) [
  | inl e ↦ rw e (inl (refl, refl))
  | inr e ↦ rw e (minus_lem (f (suc a)) _ _ (h (suc a) (ground (arith, e))))
]

-- A call is refused exactly where its data type is signed and the number has no negation in 64 bits,
-- or where the data type has 16 bits and the magnitude is 2 ^ 15 or more in them. Otherwise a reader
-- of the notation reads the text as the sign and the magnitude in the width of the data type, a
-- negative number of an unsigned data type as its two's complement.
pub print_imm_value_lem :
    (datatype : Datatype) (value : ℤ)
    → Printed (print_imm_value value datatype) (is_refused datatype value) (shown datatype value)
unfolding Printed with_sign print_imm_value sign_of format_of
print_imm_value_lem Datatype.s8 = signed_lem format8 8 (λ m _. format8_lem m)
print_imm_value_lem Datatype.s16 = signed_lem format16 16 (λ m _. format16_lem m)
print_imm_value_lem Datatype.s32 = signed_lem format32 32 (λ m _. format32_lem m)
print_imm_value_lem Datatype.s64 = signed_lem format64 64 format64_lem
print_imm_value_lem Datatype.u8 = unsigned_lem format8 8 (λ m _. format8_lem m)
print_imm_value_lem Datatype.i8 = unsigned_lem format8 8 (λ m _. format8_lem m)
print_imm_value_lem Datatype.u16 = unsigned_lem format16 16 (λ m _. format16_lem m)
print_imm_value_lem Datatype.i16 = unsigned_lem format16 16 (λ m _. format16_lem m)
print_imm_value_lem Datatype.u32 = unsigned_lem format32 32 (λ m _. format32_lem m)
print_imm_value_lem Datatype.i32 = unsigned_lem format32 32 (λ m _. format32_lem m)
print_imm_value_lem _ = unsigned_lem format64 64 format64_lem
