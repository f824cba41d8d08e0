-- ===== src/Base/Bits.antt =====
-- `|` and `&` at variables: the law of the lowest digit, disjoint fields, and masks.
use Prim.Native.Nat.{min, max, digits, bitwise, bit_and-bitwise, bit_or-bitwise}
use Prim.Native.Nat.{ℕ, zero, suc, ◌+◌, ◌-◌, ◌*◌, ◌/◌, ◌%◌, ◌^◌, ◌≤◌, ◌<◌, bit_and, bit_or}
use mathlib.Core.Path.{◌≡◌, refl, ap, subst, ◌∙◌}
use native.Mathlib.Nat.{
  le_refl, pow-suc, zero-add, suc-add, one-le-pow, mod-lt, mod-eq_of_lt, div-add-mod,
  add-mul-mod_self_right,
}
use native.Mathlib.Omega.{arith}

-- A count of digits that is enough for `a` can be raised.
module _ (z : ℕ → ℕ) (f : ℕ → ℕ → ℕ) where
  digits-suc : (a n b : ℕ) → a ≤ n → digits z f (suc n) a b ≡ digits z f n a b
  digits-suc zero zero b h = refl
  digits-suc zero (suc n) b h = refl
  digits-suc (suc a) zero b h = absurd (omega arith)
  digits-suc (suc a) (suc n) b h =
      ap (λ (t : ℕ). t * 2 + f (suc a % 2) (b % 2)) (digits-suc (suc a / 2) n (b / 2) (omega arith))

  digits-add : (k n a b : ℕ) → a ≤ n → digits z f (k + n) a b ≡ digits z f n a b
  digits-add zero n a b h = rw (zero-add n) refl
  digits-add (suc k) n a b h =
      rw (suc-add k n) (digits-suc a (k + n) b (omega arith) ∙ digits-add k n a b h)

  halved : (a b : ℕ) → digits z f a (suc a / 2) (b / 2) ≡ digits z f (suc a / 2) (suc a / 2) (b / 2)
  halved a b =
      let rest = digits-add (a - suc a / 2) (suc a / 2) (suc a / 2) (b / 2) (le_refl (suc a / 2)) in
      let whole : a - suc a / 2 + suc a / 2 ≡ a = omega arith in
      subst
        (λ (t : ℕ). digits z f t (suc a / 2) (b / 2) ≡ digits z f (suc a / 2) (suc a / 2) (b / 2))
        whole rest

  -- The lowest digit apart, where the rest of `z` is as `f` has it of a number that has run out.
  lowest :
      ((b : ℕ) → z b ≡ z (b / 2) * 2 + f 0 (b % 2))
      → (a b : ℕ) → bitwise z f a b ≡ bitwise z f (a / 2) (b / 2) * 2 + f (a % 2) (b % 2)
  lowest out zero b = out b
  lowest out (suc a) b = ap (λ (t : ℕ). t * 2 + f (suc a % 2) (b % 2)) (halved a b)

pub bit_or_step : (a b : ℕ) → bit_or a b ≡ bit_or (a / 2) (b / 2) * 2 + max (a % 2) (b % 2)
bit_or_step a b = simp bit_or-bitwise (lowest (λ b. b) max (λ b. omega arith) a b)

pub bit_and_step : (a b : ℕ) → bit_and a b ≡ bit_and (a / 2) (b / 2) * 2 + min (a % 2) (b % 2)
bit_and_step a b = simp bit_and-bitwise (lowest (λ b. 0) min (λ b. omega arith) a b)

pub mul_pow_suc : (q k : ℕ) → q * 2 ^ suc k ≡ 2 * (q * 2 ^ k)
mul_pow_suc q k = omega (arith, ap (λ (t : ℕ). q * t) (pow-suc 2 k))

-- The digits from `k` up are joined apart from a rest that only one side has.
pub bit_or_high :
    (k a b r : ℕ) → r < 2 ^ k → bit_or (a * 2 ^ k + r) (b * 2 ^ k) ≡ bit_or a b * 2 ^ k + r
bit_or_high zero a b r h = grind arith
bit_or_high (suc k) a b r h = ground (
  arith,
  bit_or_step (a * 2 ^ suc k + r) (b * 2 ^ suc k),
  mul_pow_suc a k,
  mul_pow_suc b k,
  mul_pow_suc (bit_or a b) k,
  pow-suc 2 k,
  bit_or_high k a b (r / 2) (omega arith),
)

pub zero-bit_or : (b : ℕ) → bit_or 0 b ≡ b
zero-bit_or b = bit_or-bitwise 0 b

-- `(q << k) | r`, either way round, is a sum when `r` fits `k` bits.
pub bit_or_low : (k q r : ℕ) → r < 2 ^ k → bit_or r (q * 2 ^ k) ≡ q * 2 ^ k + r
bit_or_low k q r h = ground (arith, bit_or_high k 0 q r h, zero-bit_or q)

pub bit_or-one : (m : ℕ) → m % 2 ≡ 1 → bit_or 1 m ≡ m
bit_or-one m h = omega (arith, bit_or_step 1 m, zero-bit_or (m / 2))

pub pow_add : (a b : ℕ) → 2 ^ (a + b) ≡ 2 ^ a * 2 ^ b
pow_add zero b = ground (arith, ap (λ (t : ℕ). 2 ^ t) (zero-add b))
pow_add (suc a) b = rw (suc-add a b, pow-suc 2 (a + b), pow_add a b, pow-suc 2 a) (omega arith)

le_zero : (a : ℕ) → a ≤ 0 → a ≡ 0
le_zero a h = omega arith

bit_and-zero_within : (n a : ℕ) → a ≤ n → bit_and a 0 ≡ 0
bit_and-zero_within zero a h = rw (le_zero a h)
bit_and-zero_within (suc n) a h =
    omega (arith, bit_and_step a 0, bit_and-zero_within n (a / 2) (omega arith))

bit_and-zero : (a : ℕ) → bit_and a 0 ≡ 0
bit_and-zero a = bit_and-zero_within a a (le_refl a)

pub mod_unique : (q m : ℕ) {r : ℕ} → r < m → (r + q * m) % m ≡ r
mod_unique q m {r} h = add-mul-mod_self_right r q m ∙ mod-eq_of_lt h

pub mod_pow_suc : (k a : ℕ) → a % 2 ^ suc k ≡ a / 2 % 2 ^ k * 2 + a % 2
mod_pow_suc k a =
    let low : a / 2 % 2 ^ k * 2 + a % 2 < 2 ^ suc k =
      omega (arith, pow-suc 2 k, mod-lt (a / 2) (one-le-pow k 2 (omega arith))) in
    let whole : a ≡ a / 2 % 2 ^ k * 2 + a % 2 + a / 2 / 2 ^ k * 2 ^ suc k =
      omega (arith, mul_pow_suc (a / 2 / 2 ^ k) k, div-add-mod (a / 2) (2 ^ k)) in
    ap (λ (t : ℕ). t % 2 ^ suc k) whole ∙ mod_unique (a / 2 / 2 ^ k) (2 ^ suc k) low

-- A mask of `k` ones keeps the low `k` digits.
pub bit_and-ones : (k a : ℕ) → bit_and a (2 ^ k - 1) ≡ a % 2 ^ k
bit_and-ones zero a = omega (arith, bit_and-zero a)
bit_and-ones (suc k) a =
    let halved : (2 ^ suc k - 1) / 2 ≡ 2 ^ k - 1 = omega (arith, pow-suc 2 k, one-le-pow k 2) in
    let step : a % 2 ^ suc k ≡ a / 2 % 2 ^ k * 2 + a % 2 = mod_pow_suc k a in
    let bits = bit_and_step a (2 ^ suc k - 1) in
    omega (
      arith,
      subst
          (λ (t : ℕ).
            bit_and a (2 ^ suc k - 1) ≡ bit_and (a / 2) t * 2 + min (a % 2) ((2 ^ suc k - 1) % 2))
          halved bits,
      bit_and-ones k (a / 2),
      step,
      pow-suc 2 k,
      one-le-pow k 2,
    )
