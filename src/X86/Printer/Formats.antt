-- ===== src/X86/Printer/Formats.antt =====
-- The formats of numbers in source/x86/printer.c, against a reader of their notation.
use amed.Base.{
  ℕ, ◌+◌, ◌-◌, ◌%◌, ◌^◌, ◌≤◌, ◌<◌, ◌≡◌, ◌⊎◌, inl, inr, refl, ap, arith, Bool, true, false, ◌&&◌,
  Option, none, some, [], ◌∷◌, ◌++◌, ltb, leb, ◌==◌, Bool-cases, not, if◌then◌else◌, length,
  all_below_sound,
}
use amed.Base.Text.{
  Text, codes, sprintf_s, hex, decimal, digits, read_digits, read_digits-hex, length-hex,
  length-hex_ge,
}
use amed.X86.Printer.{negated, format8, format16, format32, format64}

-- A reader of the notation: a sign, and a number in hexadecimal after `0x` or in decimal.
abbrev pub read_number : Text → ℕ
read_number (c ∷ d ∷ s) = if d == b'x' then read_digits 16 0 s else read_digits 10 0 (c ∷ d ∷ s)
read_number s = read_digits 10 0 s

pub read_imm : Text → Bool × ℕ
read_imm [] = (false, 0)
read_imm (c ∷ s) = if c == b'-' then (true, read_number s) else (false, read_number (c ∷ s))

-- The text of a call is read as a number, and as its negation after a sign.
abbrev pub Reads : Option Text → ℕ → Type 0
Reads o n =
    (text : Text) × (o ≡ some text)
    × (read_imm text ≡ (false, n))
    × (read_imm (b'-' ∷ text) ≡ (true, n))

-- A call is refused exactly under `r`, and otherwise its text is read as the number.
abbrev pub Outcome : Option Text → Bool → ℕ → Type 0
Outcome o r n = ((r ≡ true) × (o ≡ none)) ⊎ ((r ≡ false) × Reads o n)

sprintf_s-fits : (size : ℕ) (s : Text) → length s < size → sprintf_s size s ≡ some s
sprintf_s-fits size s h = ground arith

sprintf_s-refuses : (size : ℕ) (s : Text) → size ≤ length s → sprintf_s size s ≡ none
sprintf_s-refuses size s h = ground arith

abbrev byte_test : ℕ → Bool
byte_test n =
    let (negative, value) = read_imm (decimal n) in
    let (negated, opposite) = read_imm (b'-' ∷ decimal n) in
    ltb (length (decimal n)) 4 && not negative && value == n && negated && opposite == n

pair_eq : (p : Bool × ℕ) (b : Bool) (n : ℕ) → p.0 ≡ b → p.1 ≡ n → p ≡ (b, n)
pair_eq (a, m) b n h e = grind (arith, h, e)

byte_lem : (n : ℕ) → n < 256 → byte_test n ≡ true
unfolding read_imm digits read_digits
byte_lem n h = all_below_sound 256 byte_test n refl h

pub format8_lem : (v : ℕ) → Outcome (format8 v) false (v % 2 ^ 8)
format8_lem v =
    let h : byte_test (v % 2 ^ 8) ≡ true = byte_lem (v % 2 ^ 8) (omega arith) in
    let reads : Reads (format8 v) (v % 2 ^ 8) = (
      decimal (v % 2 ^ 8),
      sprintf_s-fits 4 (decimal (v % 2 ^ 8)) (ground (arith, h)),
      pair_eq _ false _ (ground (arith, h)) (ground (arith, h)),
      pair_eq _ true _ (ground (arith, h)) (ground (arith, h)),
    ) in
    inr (refl, reads)

hex_lem :
    (size width n : ℕ)
    → n < 2 ^ 64
    → length (hex width n) + 2 < size
    → Reads (sprintf_s size (codes "0x" ++ hex width n)) n
unfolding read_imm
hex_lem size width n h fits = (
  _,
  sprintf_s-fits size (codes "0x" ++ hex width n) (omega arith),
  ap (λ (t : ℕ). (false, t)) (read_digits-hex width n h),
  ap (λ (t : ℕ). (true, t)) (read_digits-hex width n h),
)

pub format32_lem : (v : ℕ) → Outcome (format32 v) false (v % 2 ^ 32)
format32_lem v =
    inr (refl, hex_lem 12 8 (v % 2 ^ 32) (omega arith) (omega (arith, length-hex 7 (v % 2 ^ 32))))

pub format64_lem : (v : ℕ) → v < 2 ^ 64 → Outcome (format64 v) false (v % 2 ^ 64)
format64_lem v h =
    let same : v % 2 ^ 64 ≡ v = omega arith in
    inr (refl, rw same (hex_lem 20 16 v h (omega (arith, length-hex 15 v))))

-- What `%x` is given of a negative `int16_t`.
abbrev widened : ℕ → ℕ
widened v = 2 ^ 32 - 2 ^ 16 + v % 2 ^ 16

long : (v : ℕ) → 2 ^ 15 ≤ v % 2 ^ 16 → 8 ≤ length (codes "0x" ++ hex 4 (widened v))
long v h = omega (arith, length-hex_ge 4 7 (widened v) (omega arith) (omega arith))

pub format16_lem : (v : ℕ) → Outcome (format16 v) (leb (2 ^ 15) (v % 2 ^ 16)) (v % 2 ^ 16)
format16_lem v = elim (Bool-cases (ltb (v % 2 ^ 16) (2 ^ 15))) [
  | inl lt ↦ inr (
    ground (arith, lt),
    rw lt (hex_lem 8 4 (v % 2 ^ 16) (omega arith) (ground (arith, lt, length-hex 3 (v % 2 ^ 16)))),
  )
  | inr ge ↦ inl (
    ground (arith, ge),
    rw ge (sprintf_s-refuses 8 (codes "0x" ++ hex 4 (widened v)) (long v (ground (arith, ge)))),
  )
]
