-- ===== src/Utils/Binary/Rotate.antt =====
-- source/utils/binary.h: `ror` and `ror64` against the exchange of the low bits with the others.
use native.Mathlib.Nat.{
  add_comm, mod-lt, add-mul-div_right, add-mul-mod_self_right, div-add-mod', one-le-pow,
}
use amed.Base.{
  ℕ, ◌+◌, ◌-◌, ◌*◌, ◌/◌, ◌%◌, ◌^◌, ◌≤◌, ◌<◌, bit_and, bit_or, ◌≡◌, some, arith, ap, subst, ◌∙◌, sym,
}
use amed.Base.Bits.{bit_or_low, pow_add, mod_unique, bit_and-ones}
use amed.Utils.Binary.{ror, ror64}
use amed.Utils.Binary.Ones.{replicate64_ones}

-- A word below `p * q`, seen as a part of weight `p` and a rest below `p`.
module _ (p q v : ℕ) (has_low : 0 < p) (has_high : 0 < q) where
  remainder-lt : v % p * q < p * q
  remainder-lt = let h = mod-lt v has_low in grind arith

  shifted_left : v * q % (p * q) ≡ v % p * q
  shifted_left =
      let whole : v * q ≡ v % p * q + v / p * (p * q) =
        omega (arith, ap (λ (t : ℕ). t * q) (div-add-mod' v p)) in
      ap (λ (t : ℕ). t % (p * q)) whole ∙ mod_unique (v / p) (p * q) remainder-lt

pow_pos : (k : ℕ) → 0 < 2 ^ k
pow_pos k = one-le-pow k 2 (omega arith)

-- The low `r` of `w` bits come to the top, above the others.
abbrev pub rotated : ℕ → ℕ → ℕ → ℕ
rotated w r v = v % 2 ^ r * 2 ^ (w - r) + v / 2 ^ r

weights : (w r : ℕ) → r ≤ w → 2 ^ r * 2 ^ (w - r) ≡ 2 ^ w
weights w r h = sym (pow_add r (w - r)) ∙ ap (λ (t : ℕ). 2 ^ t) (omega arith)

quotient-lt : (p q v : ℕ) → 0 < p → v < p * q → v / p < q
quotient-lt p q v h fits = grind arith

-- For a rotation `r` from 1 to 31, `ror` brings the low `r` bits of every 32-bit word to the top.
pub ror_lem : (v r : ℕ) → 0 < r → r < 32 → v < 2 ^ 32 → ror v r ≡ some (rotated 32 r v)
unfolding ror
ror_lem v r pos lt fits =
    let e = weights 32 r (omega arith) in
    let below : v < 2 ^ r * 2 ^ (32 - r) = subst (λ (t : ℕ). v < t) (sym e) fits in
    let left : v * 2 ^ (32 - r) % 2 ^ 32 ≡ v % 2 ^ r * 2 ^ (32 - r) =
      subst (λ (t : ℕ). v * 2 ^ (32 - r) % t ≡ v % 2 ^ r * 2 ^ (32 - r)) e
        (shifted_left (2 ^ r) (2 ^ (32 - r)) v (pow_pos r) (pow_pos (32 - r))) in
    let fits_low = quotient-lt (2 ^ r) (2 ^ (32 - r)) v (pow_pos r) below in
    ground (
      arith,
      left,
      ap (bit_or (v / 2 ^ r)) left,
      bit_or_low (32 - r) (v % 2 ^ r) (v / 2 ^ r) fits_low,
    )

module _ (p q v : ℕ) (has_low : 0 < p) (has_high : 0 < q) (fits : v < p * q) where
  swapped-lt : v % p * q + v / p < p * q
  swapped-lt = let a = mod-lt v has_low in let b = quotient-lt p q v has_low fits in grind arith

  swapped_low : (v % p * q + v / p) % q ≡ v / p
  swapped_low =
      ap (λ (t : ℕ). t % q) (add_comm (v % p * q) (v / p))
      ∙ mod_unique (v % p) q (quotient-lt p q v has_low fits)

  swapped_high : (v % p * q + v / p) / q ≡ v % p
  swapped_high =
      let b = quotient-lt p q v has_low fits in
      let e : v / p / q ≡ 0 = grind arith in
      ap (λ (t : ℕ). t / q) (add_comm (v % p * q) (v / p))
      ∙ add-mul-div_right (v / p) (v % p) has_high
      ∙ omega (arith, e)

  swapped_back : (v % p * q + v / p) % q * p + (v % p * q + v / p) / q ≡ v
  swapped_back = rw (swapped_low, swapped_high) (div-add-mod' v p)

module _ (w r v : ℕ) (h : r ≤ w) (fits : v < 2 ^ w) where
  fits_weights : v < 2 ^ r * 2 ^ (w - r)
  fits_weights = subst (λ (t : ℕ). v < t) (sym (weights w r h)) fits

  pub rotated-lt : rotated w r v < 2 ^ w
  rotated-lt =
      subst (λ (t : ℕ). rotated w r v < t) (weights w r h)
        (swapped-lt (2 ^ r) (2 ^ (w - r)) v (pow_pos r) (pow_pos (w - r)) fits_weights)

  rotated-rotated : rotated w (w - r) (rotated w r v) ≡ v
  rotated-rotated =
      let back : w - (w - r) ≡ r = omega arith in
      let s : ℕ = w - r in
      subst (λ (t : ℕ). rotated w r v % 2 ^ s * 2 ^ t + rotated w r v / 2 ^ s ≡ v) (sym back)
        (swapped_back (2 ^ r) (2 ^ s) v (pow_pos r) (pow_pos s) fits_weights)

-- For a rotation from 1 to 31 of a 32-bit word, rotating the result on by the other bits gives the
-- word back.
pub ror-ror : (v r u : ℕ) → 0 < r → r < 32 → v < 2 ^ 32 → ror v r ≡ some u → ror u (32 - r) ≡ some v
ror-ror v r u pos lt fits e =
    let rotates : u ≡ rotated 32 r v = cc (ror_lem v r pos lt fits) in
    let below : u < 2 ^ 32 =
      subst (λ (t : ℕ). t < 2 ^ 32) (sym rotates) (rotated-lt 32 r v (omega arith) fits) in
    ror_lem u (32 - r) (omega arith) (omega arith) below
    ∙ ap some (ap (rotated 32 (32 - r)) rotates ∙ rotated-rotated 32 r v (omega arith) fits)

-- What a mask of `p * q` keeps, where the word was cut at a multiple of `p` before.
module _ (p q c v : ℕ) (has_low : 0 < p) (has_high : 0 < q) (fits : v < p * q) where
  cut_twice : v % (p * c) % p ≡ v % p
  cut_twice =
      let whole : v ≡ v % (p * c) + v / (p * c) * c * p = omega (arith, div-add-mod' v (p * c)) in
      sym (add-mul-mod_self_right (v % (p * c)) (v / (p * c) * c) p)
      ∙ ap (λ (t : ℕ). t % p) (sym whole)

  kept : (v % (p * c) * q + v / p) % (p * q) ≡ v % p * q + v / p
  kept =
      let low : v % (p * c) ≡ v % p + v % (p * c) / p * p =
        omega (arith, cut_twice, div-add-mod' (v % (p * c)) p) in
      let whole : v % (p * c) * q + v / p ≡ v % p * q + v / p + v % (p * c) / p * (p * q) =
        omega (arith, ap (λ (t : ℕ). t * q) low) in
      ap (λ (t : ℕ). t % (p * q)) whole
      ∙ mod_unique (v % (p * c) / p) (p * q) (swapped-lt p q v has_low has_high fits)

module _ (v r d : ℕ) (pos : 0 < r) (lt : r < d) (word : d ≤ 64) (fits : v < 2 ^ d) where
  -- The left shift drops the bits that leave the 64-bit word.
  left_in_word : v * 2 ^ (d - r) % 2 ^ 64 ≡ v % (2 ^ r * 2 ^ (64 - d)) * 2 ^ (d - r)
  left_in_word =
      let room : 2 ^ r * 2 ^ (64 - d) ≡ 2 ^ (64 - (d - r)) =
        sym (pow_add r (64 - d)) ∙ ap (λ (t : ℕ). 2 ^ t) (omega arith) in
      let whole : 2 ^ (64 - (d - r)) * 2 ^ (d - r) ≡ 2 ^ 64 =
        sym (pow_add (64 - (d - r)) (d - r)) ∙ ap (λ (t : ℕ). 2 ^ t) {y = 64} (omega arith) in
      subst (λ (t : ℕ). v * 2 ^ (d - r) % 2 ^ 64 ≡ v % t * 2 ^ (d - r)) (sym room)
        (subst (λ (t : ℕ). v * 2 ^ (d - r) % t ≡ v % 2 ^ (64 - (d - r)) * 2 ^ (d - r)) whole
          (shifted_left (2 ^ (64 - (d - r))) (2 ^ (d - r)) v (pow_pos (64 - (d - r)))
            (pow_pos (d - r))))

  below_weights : v < 2 ^ r * 2 ^ (d - r)
  below_weights = subst (λ (t : ℕ). v < t) (sym (weights d r (omega arith))) fits

  joined : bit_and (bit_or (v / 2 ^ r) (v * 2 ^ (d - r) % 2 ^ 64)) (2 ^ d - 1) ≡ rotated d r v
  joined =
      bit_and-ones d (bit_or (v / 2 ^ r) (v * 2 ^ (d - r) % 2 ^ 64))
      ∙ ap (λ (t : ℕ). bit_or (v / 2 ^ r) t % 2 ^ d) left_in_word
      ∙ ap (λ (t : ℕ). t % 2 ^ d)
          (bit_or_low (d - r) (v % (2 ^ r * 2 ^ (64 - d))) (v / 2 ^ r)
            (quotient-lt (2 ^ r) (2 ^ (d - r)) v (pow_pos r) below_weights))
      ∙ ap (λ (t : ℕ). (v % (2 ^ r * 2 ^ (64 - d)) * 2 ^ (d - r) + v / 2 ^ r) % t)
          (sym (weights d r (omega arith)))
      ∙ kept (2 ^ r) (2 ^ (d - r)) (2 ^ (64 - d)) v (pow_pos r) (pow_pos (d - r)) below_weights

-- For every element of `d` bits, `d` at most 64, and every `r` from 1 to `d` - 1, `ror64` brings the
-- low `r` bits of the element to its top.
pub ror64_lem :
    (v r d : ℕ) → 0 < r → r < d → d ≤ 64 → v < 2 ^ d → ror64 v r d ≡ some (rotated d r v)
unfolding ror64
ror64_lem v r d pos lt word fits =
    ground (arith, replicate64_ones d, ap some (joined v r d pos lt word fits))
