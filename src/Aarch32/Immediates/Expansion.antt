-- ===== src/Aarch32/Immediates/Expansion.antt =====
-- The immediates of source/aarch32/decoder.c against the manual's expansion.
use amed.Base.{
  ℕ, ◌+◌, ◌*◌, ◌/◌, ◌%◌, ◌^◌, ◌<◌, ◌≡◌, refl, ◌∙◌, ap, arith, Option, none, some, ◌==◌,
  if◌then◌else◌, if-cases, bit_or, u32, field, ==_iff, Bool, true, false,
}
use amed.Base.Bits.{bit_or_low}
use amed.Utils.Binary.{ror}
use amed.Utils.Binary.Rotate.{ror_lem, rotated}
use amed.Aarch32.Immediates.{copied_imm8, decode_a32_imm, decode_t32_imm}

-- The bytes of a word, of which each is the given one or 0.
unfoldable pub byte_weight : ℕ → ℕ
byte_weight which =
    if which == 0
    then 1
    else if which == 1
    then 0x00010001
    else if which == 2
    then 0x01000100
    else 0x01010101

copied_imm8_lem : (which b : ℕ) → b < 2 ^ 8 → copied_imm8 which b ≡ b * byte_weight which
unfolding copied_imm8 byte_weight
copied_imm8_lem which b h =
    let at8 : u32 (b * 2 ^ 8) ≡ b * 2 ^ 8 = omega arith in
    let at16 : u32 (b * 2 ^ 16) ≡ b * 2 ^ 16 = omega arith in
    let at24 : u32 (b * 2 ^ 24) ≡ b * 2 ^ 24 = omega arith in
    let low16 : bit_or b (b * 2 ^ 16) ≡ b * 2 ^ 16 + b = bit_or_low 16 b b (omega arith) in
    let high : bit_or (b * 2 ^ 8) (b * 2 ^ 24) ≡ b * 2 ^ 24 + b * 2 ^ 8 =
      ap (λ (t : ℕ). bit_or (b * 2 ^ 8) t) (omega arith)
      ∙ bit_or_low 24 b (b * 2 ^ 8) (omega arith) in
    let low8 : bit_or b (b * 2 ^ 8) ≡ b * 2 ^ 8 + b = bit_or_low 8 b b (omega arith) in
    let three : bit_or (b * 2 ^ 8 + b) (b * 2 ^ 16) ≡ b * 2 ^ 16 + (b * 2 ^ 8 + b) =
      bit_or_low 16 b (b * 2 ^ 8 + b) (omega arith) in
    let four : bit_or (b * 2 ^ 16 + (b * 2 ^ 8 + b)) (b * 2 ^ 24)
        ≡ b * 2 ^ 24 + (b * 2 ^ 16 + (b * 2 ^ 8 + b)) =
      bit_or_low 24 b (b * 2 ^ 16 + (b * 2 ^ 8 + b)) (omega arith) in
    rw (at8, at16, at24, low16, high, low8, three, four) (ground arith)

same_branches {ℓ} :
    {A : Type ℓ} (b : Bool) {x y : Option A} {u v : A}
    → (b ≡ true → x ≡ some u)
    → (b ≡ false → y ≡ some v)
    → (if b then x else y) ≡ some (if b then u else v)
same_branches true f g = f refl
same_branches false f g = g refl

-- For every 12-bit immediate, `decode_t32_imm` returns, with ThumbExpandImm of the manual: if the top
-- two bits are 0, the low byte in the bytes of the word that the next two bits select, and otherwise
-- 1 and the low seven bits, rotated right by the top five.
pub decode_t32_imm_lem :
    (imm12 : ℕ)
    → imm12 < 2 ^ 12
    → decode_t32_imm imm12
      ≡ some (
          if imm12 / 2 ^ 10 == 0
          then imm12 % 2 ^ 8 * byte_weight (imm12 / 2 ^ 8)
          else rotated 32 (imm12 / 2 ^ 7) (2 ^ 7 + imm12 % 2 ^ 7))
unfolding decode_t32_imm
decode_t32_imm_lem imm12 h =
    let top : field 10 2 imm12 ≡ imm12 / 2 ^ 10 = omega arith in
    let one : bit_or (field 0 7 imm12) (2 ^ 7) ≡ 2 ^ 7 + imm12 % 2 ^ 7 =
      bit_or_low 7 1 (field 0 7 imm12) (omega arith) ∙ omega arith in
    let amount : field 7 5 imm12 ≡ imm12 / 2 ^ 7 = omega arith in
    let byte : field 0 8 imm12 ≡ imm12 % 2 ^ 8 = omega arith in
    rw (top, one, amount, byte)
      (same_branches (imm12 / 2 ^ 10 == 0)
        (λ zero_top.
          let small : imm12 / 2 ^ 10 ≡ 0 = (==_iff _ _).0 zero_top in
          let which : field 8 2 imm12 ≡ imm12 / 2 ^ 8 = omega (arith, small) in
          rw which (ap some (copied_imm8_lem (imm12 / 2 ^ 8) (imm12 % 2 ^ 8) (omega arith))))
        (λ rotates.
          ror_lem (2 ^ 7 + imm12 % 2 ^ 7) (imm12 / 2 ^ 7) (ground (arith, rotates)) (omega arith)
            (omega arith)))

unrotated-ror : (v : ℕ) → ror v 0 ≡ none
unfolding ror
unrotated-ror v = refl

-- For every 12-bit immediate, `decode_a32_imm` is undefined in C if the top four bits are 0, and
-- otherwise is ARMExpandImm of the manual: the low byte, rotated right by twice the top four bits.
pub decode_a32_imm_lem :
    (imm12 : ℕ)
    → imm12 < 2 ^ 12
    → decode_a32_imm imm12
      ≡ (if imm12 / 2 ^ 8 == 0 then none else some (rotated 32 (imm12 / 2 ^ 8 * 2) (imm12 % 2 ^ 8)))
unfolding decode_a32_imm
decode_a32_imm_lem imm12 h =
    let byte : field 0 8 imm12 ≡ imm12 % 2 ^ 8 = omega arith in
    let amount : field 8 4 imm12 ≡ imm12 / 2 ^ 8 = omega arith in
    rw (byte, amount)
      (if-cases (λ (o : Option ℕ). ror (imm12 % 2 ^ 8) (imm12 / 2 ^ 8 * 2) ≡ o) (imm12 / 2 ^ 8 == 0)
        (λ zero_top.
          let unrotated : imm12 / 2 ^ 8 * 2 ≡ 0 = ground (arith, zero_top) in
          rw unrotated (unrotated-ror (imm12 % 2 ^ 8)))
        (λ rotates.
          ror_lem (imm12 % 2 ^ 8) (imm12 / 2 ^ 8 * 2) (ground (arith, rotates)) (omega arith)
            (omega arith)))
