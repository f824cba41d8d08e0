-- ===== src/Utils/Binary/Extend.antt =====
-- source/utils/binary.h: `sign_extend` and `sign_extend64` against two's complement.
use amed.Base.{
  ℕ, ◌+◌, ◌-◌, ◌*◌, ◌/◌, ◌%◌, ◌^◌, ◌≤◌, ◌<◌, bit_or, ◌≡◌, some, refl, sym, subst, ◌∙◌, ◌⊎◌, false,
  Bool, arith, inl, inr, true, ◌&&◌, ltb, leb, ◌==◌, flag, all_below_sound,
}
use amed.Base.Bits.{bit_or_high, bit_or-one}
use amed.Base.Int.{signed}
use amed.Utils.Binary.{sign_extend, sign_extend64}

-- The mask from bit `i` up is a multiple of `2 ^ i`, by a number of ones.
module _ (w i : ℕ) where
  abbrev IsMask : ℕ → Type 0
  IsMask m =
      ((2 ^ w - 1) * 2 ^ i % 2 ^ w ≡ m * 2 ^ i)
      × (m % 2 ≡ 1)
      × (m * 2 ^ i + 2 ^ i ≡ 2 ^ w)
      × (2 ^ i ≤ 2 ^ (w - 1))
      × (2 ^ (i + 1) ≡ 2 * 2 ^ i)
      × (0 < 2 ^ i)

abbrev mask_test : ℕ → ℕ → Bool
mask_test w i =
    let m = 2 ^ (w - i) - 1 in
    ((2 ^ w - 1) * 2 ^ i % 2 ^ w == m * 2 ^ i)
    && (m % 2 == 1)
    && (m * 2 ^ i + 2 ^ i == 2 ^ w)
    && leb (2 ^ i) (2 ^ (w - 1))
    && (2 ^ (i + 1) == 2 * 2 ^ i)
    && ltb 0 (2 ^ i)

mask_test-IsMask : (w i : ℕ) → mask_test w i ≡ true → IsMask w i (2 ^ (w - i) - 1)
mask_test-IsMask w i h = ground arith

mask32 : (i : ℕ) → i < 32 → IsMask 32 i (2 ^ (32 - i) - 1)
mask32 i h = mask_test-IsMask 32 i (all_below_sound 32 (mask_test 32) i refl h)

mask64 : (i : ℕ) → i < 64 → IsMask 64 i (2 ^ (64 - i) - 1)
mask64 i h = mask_test-IsMask 64 i (all_below_sound 64 (mask_test 64) i refl h)

-- A field with its sign bit set is `2 ^ i` and a rest.
extended :
    (w i m v : ℕ)
    → IsMask w i m
    → v < 2 ^ (i + 1)
    → 2 ^ i ≤ v
    → bit_or v ((2 ^ w - 1) * 2 ^ i % 2 ^ w) ≡ 2 ^ w - 2 ^ i + (v - 2 ^ i)
extended w i m v k lt le =
    let split : v ≡ 1 * 2 ^ i + (v - 2 ^ i) = omega arith in
    let joined : bit_or (1 * 2 ^ i + (v - 2 ^ i)) (m * 2 ^ i) ≡ bit_or 1 m * 2 ^ i + (v - 2 ^ i) =
      bit_or_high i 1 m (v - 2 ^ i) (omega arith) in
    rw k.0 (
      subst (λ (t : ℕ). bit_or t (m * 2 ^ i) ≡ 2 ^ w - 2 ^ i + (v - 2 ^ i)) (sym split)
        (joined ∙ rw (bit_or-one m k.1) (omega arith)))

-- Below 2 ^ (i + 1), bit `i` is set from `2 ^ i` up.
flag_top : (i v : ℕ) → 2 ^ (i + 1) ≡ 2 * 2 ^ i → v < 2 ^ (i + 1) → 2 ^ i ≤ v → flag i v ≡ true
flag_top i v e lt le = let q : v / 2 ^ i ≡ 1 = grind arith in ground arith

flag_low : (i v : ℕ) → v < 2 ^ i → flag i v ≡ false
flag_low i v lt = let q : v / 2 ^ i ≡ 0 = grind arith in ground arith

extend_cases : (i v : ℕ) → (v < 2 ^ i) ⊎ (2 ^ i ≤ v)
extend_cases i v = grind arith

-- For every field of `i + 1` bits with `i` below 32, `sign_extend` gives the number that the
-- field stands for in two's complement.
pub sign_extend_lem :
    (v i : ℕ) → i < 32 → v < 2 ^ (i + 1) → sign_extend v i ≡ some (signed (i + 1) v)
unfolding sign_extend
sign_extend_lem v i h lt =
    let k = mask32 i h in
    elim (extend_cases i v) [
      | inl low ↦ ground (arith, flag_low i v low)
      | inr high ↦
          ground (arith, flag_top i v k.4 lt high, extended 32 i (2 ^ (32 - i) - 1) v k lt high)
    ]

-- For every field of `i + 1` bits with `i` below 64, `sign_extend64` gives the number that the
-- field stands for in two's complement.
pub sign_extend64_lem :
    (v i : ℕ) → i < 64 → v < 2 ^ (i + 1) → sign_extend64 v i ≡ some (signed (i + 1) v)
unfolding sign_extend64
sign_extend64_lem v i h lt =
    let k = mask64 i h in
    elim (extend_cases i v) [
      | inl low ↦ ground (arith, flag_low i v low)
      | inr high ↦
          ground (arith, flag_top i v k.4 lt high, extended 64 i (2 ^ (64 - i) - 1) v k lt high)
    ]
