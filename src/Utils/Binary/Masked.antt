-- ===== src/Utils/Binary/Masked.antt =====
-- source/utils/binary.h: `get_masked_value` against the gathering of bits.
use native.Mathlib.Nat.{pow-suc}
use native.Mathlib.Numerals.{add-one}
use amed.Base.{
  ℕ, zero, suc, ◌+◌, ◌*◌, ◌/◌, ◌%◌, ◌^◌, ◌<◌, bit_and, bit_or, ◌≡◌, ◌∙◌, ◌⊎◌, refl, some, arith, ap,
  ◌==◌, if◌then◌else◌, Bool-cases, ==_iff, inl, inr, true, false,
}
use amed.Base.Bits.{bit_or_low, bit_and_step}
use amed.Utils.Binary.{masked_loop, get_masked_value}

-- The bits of `value` at the positions where `mask` has a set bit, packed towards bit 0.
pub gather : ℕ → ℕ → ℕ → ℕ
gather zero value mask = 0
gather (suc n) value mask =
    if mask % 2 == 1
    then value % 2 + 2 * gather n (value / 2) (mask / 2)
    else gather n (value / 2) (mask / 2)

gather_no_mask : (n v : ℕ) → gather n v 0 ≡ 0
unfolding gather
gather_no_mask zero v = refl
gather_no_mask (suc n) v = gather_no_mask n (v / 2)

gather-zero : (n m : ℕ) → gather n 0 m ≡ 0
unfolding gather
gather-zero zero m = refl
gather-zero (suc n) m = ground (arith, gather-zero n (m / 2))

gather-odd :
    (n v m : ℕ) → (m % 2 == 1) ≡ true → gather (suc n) v m ≡ v % 2 + 2 * gather n (v / 2) (m / 2)
unfolding gather
gather-odd n v m odd = rw odd

gather-even : (n v m : ℕ) → (m % 2 == 1) ≡ false → gather (suc n) v m ≡ gather n (v / 2) (m / 2)
unfolding gather
gather-even n v m even = rw even

gather-bit_and : (n v m : ℕ) → gather n (bit_and v m) m ≡ gather n v m
unfolding gather
gather-bit_and zero v m = refl
gather-bit_and (suc n) v m =
    let halved : bit_and v m / 2 ≡ bit_and (v / 2) (m / 2) = omega (arith, bit_and_step v m) in
    let rest : gather n (bit_and v m / 2) (m / 2) ≡ gather n (v / 2) (m / 2) =
      ap (λ (t : ℕ). gather n t (m / 2)) halved ∙ gather-bit_and n (v / 2) (m / 2) in
    ground (arith, rest, bit_and_step v m)

scale_pow_suc : (g pos : ℕ) → g * 2 ^ (pos + 1) ≡ 2 * (g * 2 ^ pos)
scale_pow_suc g pos = rw (add-one pos, pow-suc 2 pos) (omega arith)

-- One round of the loop.
masked_loop-suc :
    (f v m pos r : ℕ)
    → masked_loop (suc f) v m pos r ≡ (
        if m == 0
        then some r
        else if v == 0
        then some r
        else if m % 2 == 1
        then masked_loop f (v / 2) (m / 2) (pos + 1) (bit_or r (v % 2 * 2 ^ pos))
        else masked_loop f (v / 2) (m / 2) pos r)
unfolding masked_loop
masked_loop-suc f v m pos r = refl

masked_loop-no_mask : (f v pos r : ℕ) → masked_loop (suc f) v 0 pos r ≡ some r
unfolding masked_loop
masked_loop-no_mask f v pos r = refl

masked_loop-zero : (f m pos r : ℕ) → masked_loop (suc f) 0 m pos r ≡ some r
unfolding masked_loop
masked_loop-zero f m pos r = ground arith

module _ (f v m pos r : ℕ) (some_mask : (m == 0) ≡ false) (some_value : (v == 0) ≡ false) where
  masked_loop-taken :
      (m % 2 == 1) ≡ true
      → masked_loop (suc f) v m pos r
        ≡ masked_loop f (v / 2) (m / 2) (pos + 1) (bit_or r (v % 2 * 2 ^ pos))
  masked_loop-taken odd = rw (masked_loop-suc f v m pos r, some_mask, some_value, odd)

  masked_loop-skipped :
      (m % 2 == 1) ≡ false → masked_loop (suc f) v m pos r ≡ masked_loop f (v / 2) (m / 2) pos r
  masked_loop-skipped even = rw (masked_loop-suc f v m pos r, some_mask, some_value, even)

bit_cases : (v : ℕ) → (v % 2 ≡ 0) ⊎ (v % 2 ≡ 1)
bit_cases v = grind arith

module _ (n v m pos r : ℕ) (lt : m < 2 ^ suc n) (below : r < 2 ^ pos) where
  bit_below : v % 2 < 2 → bit_or r (v % 2 * 2 ^ pos) < 2 ^ (pos + 1)
  bit_below h = elim (bit_cases v) [
    | inl clear ↦ omega (
      arith,
      bit_or_low pos (v % 2) r below,
      scale_pow_suc 1 pos,
      ap (λ (t : ℕ). t * 2 ^ pos) clear,
    )
    | inr set ↦ omega (
      arith,
      bit_or_low pos (v % 2) r below,
      scale_pow_suc 1 pos,
      ap (λ (t : ℕ). t * 2 ^ pos) set,
    )
  ]

  odd_round :
      (m % 2 == 1) ≡ true
      → (m / 2 < 2 ^ n
          → bit_or r (v % 2 * 2 ^ pos) < 2 ^ (pos + 1)
          → masked_loop (suc n) (v / 2) (m / 2) (pos + 1) (bit_or r (v % 2 * 2 ^ pos))
            ≡ some (bit_or r (v % 2 * 2 ^ pos) + gather n (v / 2) (m / 2) * 2 ^ (pos + 1)))
      → masked_loop (suc n) (v / 2) (m / 2) (pos + 1) (bit_or r (v % 2 * 2 ^ pos))
        ≡ some (r + gather (suc n) v m * 2 ^ pos)
  odd_round odd ih =
      ih (omega (arith, pow-suc 2 n)) (bit_below (omega arith))
      ∙ ap some (
          omega (
            arith,
            ap (λ (t : ℕ). t * 2 ^ pos) (gather-odd n v m odd),
            bit_or_low pos (v % 2) r below,
            scale_pow_suc (gather n (v / 2) (m / 2)) pos,
          ))

  even_round :
      (m % 2 == 1) ≡ false
      → (m / 2 < 2 ^ n
          → r < 2 ^ pos
          → masked_loop (suc n) (v / 2) (m / 2) pos r
            ≡ some (r + gather n (v / 2) (m / 2) * 2 ^ pos))
      → masked_loop (suc n) (v / 2) (m / 2) pos r ≡ some (r + gather (suc n) v m * 2 ^ pos)
  even_round even ih = ih (omega (arith, pow-suc 2 n)) below ∙ rw (gather-even n v m even)

masked_loop-eq :
    (n v m pos r : ℕ)
    → m < 2 ^ n
    → r < 2 ^ pos
    → masked_loop (suc n) v m pos r ≡ some (r + gather n v m * 2 ^ pos)
masked_loop-eq zero v m pos r lt below =
    let none_left : m ≡ 0 = omega arith in
    rw (none_left, masked_loop-no_mask 0 v pos r, gather_no_mask 0 v) (ground arith)
masked_loop-eq (suc n) v m pos r lt below = elim (Bool-cases (m == 0)) [
  | inl done ↦
      rw ((==_iff m 0).0 done, masked_loop-no_mask (suc n) v pos r, gather_no_mask (suc n) v)
        (ground arith)
  | inr some_mask ↦ elim (Bool-cases (v == 0)) [
    | inl done ↦
        rw ((==_iff v 0).0 done, masked_loop-zero (suc n) m pos r, gather-zero (suc n) m)
          (ground arith)
    | inr some_value ↦ elim (Bool-cases (m % 2 == 1)) [
      | inl odd ↦
          masked_loop-taken (suc n) v m pos r some_mask some_value odd
          ∙ odd_round n v m pos r lt below odd
              (masked_loop-eq n (v / 2) (m / 2) (pos + 1) (bit_or r (v % 2 * 2 ^ pos)))
      | inr even ↦
          masked_loop-skipped (suc n) v m pos r some_mask some_value even
          ∙ even_round n v m pos r lt below even (masked_loop-eq n (v / 2) (m / 2) pos r)
    ]
  ]
]

-- For every word and 32-bit mask the loop of `get_masked_value` ends, with the bits of the word
-- under the mask packed together.
pub get_masked_value_lem : (v m : ℕ) → m < 2 ^ 32 → get_masked_value v m ≡ some (gather 32 v m)
unfolding get_masked_value
get_masked_value_lem v m lt =
    ground (arith, masked_loop-eq 32 (bit_and v m) m 0 0 lt, gather-bit_and 32 v m)
