-- ===== src/Base/Text.antt =====
-- Text as the numbers of its characters, and what the standard library's formatting makes of a
-- number. `sprintf_s` refuses a text that does not fit with its terminator.
use Prim.Native.Char.{code}
use Prim.Native.String.{String}
use Prim.Native.Nat.{ℕ, zero, suc, ◌+◌, ◌-◌, ◌*◌, ◌/◌, ◌%◌, ◌^◌, ◌≤◌, ◌<◌}
use mathlib.Core.Path.{◌≡◌, refl, ◌∙◌}
use mathlib.Core.Option.{Option, none, some}
use mathlib.Core.List.{List, [], ◌∷◌, ◌++◌}
use native.Mathlib.Nat.{pow-suc, one-le-pow}
use native.Mathlib.Omega.{arith}
use amed.Base.Tests.{ltb, leb, if◌then◌else◌}
use amed.Base.Lists.{length, length-append}

abbrev pub Text : Type 0
Text = List ℕ

abbrev pub codes : String → Text
codes String.[] = []
codes (String.◌∷◌ c s) = code c ∷ codes s

infixl 5 ◌>>=◌
abbrev pub ◌>>=◌ {ℓ κ} : {A : Type ℓ} {B : Type κ} → Option A → (A → Option B) → Option B
none >>= f = none
some a >>= f = f a

abbrev pub sprintf_s : ℕ → Text → Option Text
sprintf_s size text = if ltb (length text) size then some text else none

abbrev pub digit : ℕ → ℕ
digit d = if ltb d 10 then b'0' + d else b'a' - 10 + d

-- The digits of a number in a base, with fuel for at least as many.
unfoldable pub digits : ℕ → ℕ → ℕ → Text
digits base zero n = []
digits base (suc fuel) n =
    let rest = digits base fuel (n / base) in
    if ltb n base then digit n ∷ [] else rest ++ digit (n % base) ∷ []

abbrev pub zeros : ℕ → Text
zeros zero = []
zeros (suc n) = b'0' ∷ zeros n

-- `%0<width>x`, and `%u` of a number below 2 ^ 64.
abbrev pub hex : ℕ → ℕ → Text
hex width n = let text = digits 16 16 n in zeros (width - length text) ++ text

abbrev pub decimal : ℕ → Text
decimal n = digits 10 20 n

-- The number that a run of digits stands for, after `acc`.
abbrev pub digit_value : ℕ → ℕ
digit_value c = if leb c b'9' then c - b'0' else c - (b'a' - 10)

unfoldable pub read_digits : ℕ → ℕ → Text → ℕ
read_digits base acc [] = acc
read_digits base acc (c ∷ s) = read_digits base (acc * base + digit_value c) s

read_digits-append :
    (base acc : ℕ) (s t : Text)
    → read_digits base acc (s ++ t) ≡ read_digits base (read_digits base acc s) t
unfolding read_digits
read_digits-append base acc [] t = refl
read_digits-append base acc (c ∷ s) t = read_digits-append base (acc * base + digit_value c) s t

digit_value-digit : (d : ℕ) → d < 16 → digit_value (digit d) ≡ d
digit_value-digit d h = ground arith

read_digits-zeros : (n : ℕ) (s : Text) → read_digits 16 0 (zeros n ++ s) ≡ read_digits 16 0 s
unfolding read_digits
read_digits-zeros zero s = refl
read_digits-zeros (suc n) s = read_digits-zeros n s

read_digits-digits : (fuel n : ℕ) → n < 16 ^ fuel → read_digits 16 0 (digits 16 fuel n) ≡ n
unfolding digits read_digits
read_digits-digits zero n h = omega arith
read_digits-digits (suc fuel) n h =
    let below : n / 16 < 16 ^ fuel = omega (arith, pow-suc 16 fuel) in
    ground (
      arith,
      read_digits-append 16 0 (digits 16 fuel (n / 16)) (digit (n % 16) ∷ []),
      read_digits-digits fuel (n / 16) below,
      digit_value-digit n,
      digit_value-digit (n % 16),
    )

pub read_digits-hex : (width n : ℕ) → n < 2 ^ 64 → read_digits 16 0 (hex width n) ≡ n
read_digits-hex width n h =
    read_digits-zeros (width - length (digits 16 16 n)) (digits 16 16 n) ∙ read_digits-digits 16 n h

-- A number has as many digits as the powers of the base around it say.
pub length-digits_le : (fuel k n : ℕ) → n < 16 ^ suc k → length (digits 16 fuel n) ≤ suc k
unfolding digits
length-digits_le zero k n h = omega arith
length-digits_le (suc fuel) zero n h = ground (arith)
length-digits_le (suc fuel) (suc k) n h =
    let below : n / 16 < 16 ^ suc k = omega (arith, pow-suc 16 (suc k)) in
    ground (
      arith,
      length-append (digits 16 fuel (n / 16)) (digit (n % 16) ∷ []),
      length-digits_le fuel k (n / 16) below,
    )

pub length-digits_ge : (fuel k n : ℕ) → k < fuel → 16 ^ k ≤ n → suc k ≤ length (digits 16 fuel n)
unfolding digits
length-digits_ge zero k n lt h = omega arith
length-digits_ge (suc fuel) zero n lt h =
    ground (arith, length-append (digits 16 fuel (n / 16)) (digit (n % 16) ∷ []))
length-digits_ge (suc fuel) (suc k) n lt h =
    let above : 16 ^ k ≤ n / 16 = omega (arith, pow-suc 16 k) in
    ground (
      arith,
      length-append (digits 16 fuel (n / 16)) (digit (n % 16) ∷ []),
      length-digits_ge fuel k (n / 16) (omega arith) above,
      pow-suc 16 k,
      one-le-pow k 16 (omega arith),
    )

length-zeros : (n : ℕ) (s : Text) → length (zeros n ++ s) ≡ n + length s
length-zeros zero s = omega arith
length-zeros (suc n) s = omega (arith, length-zeros n s)

-- A number that fits in its width is printed in exactly that width.
pub length-hex : (k n : ℕ) → n < 16 ^ suc k → length (hex (suc k) n) ≡ suc k
length-hex k n h = omega (
  arith,
  length-zeros (suc k - length (digits 16 16 n)) (digits 16 16 n),
  length-digits_le 16 k n h,
)

pub length-hex_ge : (width k n : ℕ) → k < 16 → 16 ^ k ≤ n → suc k ≤ length (hex width n)
length-hex_ge width k n lt h = omega (
  arith,
  length-zeros (width - length (digits 16 16 n)) (digits 16 16 n),
  length-digits_ge 16 k n lt h,
)
