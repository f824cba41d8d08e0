-- ===== src/Aarch32/Arguments/Labels/Jump.antt =====
-- The jump labels of source/aarch32/decoder.c, whose bits J1 and J2 are lost.
use native.Mathlib.Nat.{
  div-add-mod', pow-suc, one-le-pow, div-div-eq-div-mul, div-eq_of_lt, zero-div,
}
use amed.Base.{
  ℕ, zero, suc, ◌+◌, ◌-◌, ◌*◌, ◌/◌, ◌%◌, ◌^◌, ◌≤◌, ◌<◌, ◌≡◌, refl, sym, ◌∙◌, ap, arith, false,
  if-cases, ltb, ◌==◌, field, bit_or, bit_xor,
}
use amed.Base.Bits.{bit_or_step, pow_add, zero-bit_or}
use amed.Aarch32.Names.{Symbol}
use amed.Aarch32.Database.{Any}
use amed.Aarch32.State.{Argument, Internal}
use amed.Aarch32.Arguments.Labels.{same_as, join_bits, label_symbol}

-- The sign bit and the bits below J1 and J2 of a field of `nb` bits.
unfoldable pub without_j : ℕ → ℕ → ℕ
without_j nb value = value / 2 ^ (nb - 1) * 2 ^ (nb - 1) + value % 2 ^ (nb - 3)

bit_or-zero : (n v : ℕ) → v ≤ n → bit_or v 0 ≡ v
bit_or-zero zero v h = let e : v ≡ 0 = omega arith in rw e (zero-bit_or 0)
bit_or-zero (suc n) v h = ground (arith, bit_or_step v 0, bit_or-zero n (v / 2) (omega arith))

bit-shifted_out : (s b q : ℕ) → 1 < q → same_as s b / q ≡ 0
bit-shifted_out s b q h =
    if-cases (λ (t : ℕ). t / q ≡ 0) (bit_xor b s == 0) (λ _. div-eq_of_lt h) (λ _. zero-div q)

-- Two bits of weight `q` and above are taken out.
cleared_lem : (q v : ℕ) → 0 < q → v - v / q % 4 * q ≡ v / (q * 4) * (q * 4) + v % q
cleared_lem q v h =
    let top : v / (q * 4) ≡ v / q / 4 = sym (div-div-eq-div-mul v q 4) in
    let whole : v ≡ v / q * q + v % q = sym (div-add-mod' v q) in
    let digits : v / q ≡ v / q / 4 * 4 + v / q % 4 = omega arith in
    let product : v / q * q ≡ (v / q / 4 * 4 + v / q % 4) * q = ap (λ (t : ℕ). t * q) digits in
    rw top (omega (arith, whole, product))

join_bits-without_j : (nb value : ℕ) → 4 ≤ nb → join_bits nb value ≡ without_j nb value
unfolding join_bits without_j
join_bits-without_j nb value h =
    let two : nb - 3 ≡ suc (nb - 4) = omega arith in
    let high : 2 ^ (nb - 1) ≡ 2 ^ (nb - 3) * 4 =
      ap (λ (t : ℕ). 2 ^ t) (omega arith) ∙ pow_add (nb - 3) 2 in
    let middle : 2 ^ (nb - 2) ≡ 2 ^ (nb - 3) * 2 =
      ap (λ (t : ℕ). 2 ^ t) (omega arith) ∙ pow_add (nb - 3) 1 in
    let large : 1 < 2 ^ (nb - 3) =
      omega (
        arith,
        ap (λ (t : ℕ). 2 ^ t) two,
        pow-suc 2 (nb - 4),
        one-le-pow (nb - 4) 2 (omega arith),
      ) in
    rw
      (
        bit-shifted_out _ _ (2 ^ (nb - 3)) large,
        bit-shifted_out _ _ (2 ^ (nb - 2)) (omega (arith, middle, large)),
      )
      (rw high (
        bit_or-zero value (value - field (nb - 3) 2 value * 2 ^ (nb - 3)) (omega arith)
        ∙ cleared_lem (2 ^ (nb - 3)) value (omega (arith, large))))

-- For a jump label of 4 bits or more, signed or not, and every value, scale and state, decode_arg_label
-- makes the argument that it makes for a plain label from the sign bit and the bits below J1 and J2
-- alone: the manual has NOT(J1 EOR S) and NOT(J2 EOR S) between these.
pub label_symbol-labelj :
    (s : Internal) (a : Argument) (n : Any) (scale nb value : ℕ)
    → 4 ≤ nb
    → label_symbol s a n scale nb value Symbol.labelj
      ≡ label_symbol s a n scale nb (without_j nb value) Symbol.label
unfolding label_symbol
label_symbol-labelj s a n scale nb value h =
    let long : ltb nb 3 ≡ false = ground arith in rw (long, join_bits-without_j nb value h) refl
