-- ===== src/Aarch64/Alias.antt =====
-- source/aarch64/decoder.c, the conditions of aliases that are written by hand.
pub mod Preferred
use amed.Base.{
  ℕ, ◌+◌, ◌-◌, ◌*◌, ◌/◌, ◌%◌, ◌^◌, Bool, true, false, not, ◌&&◌, ◌||◌, none, some, ltb, leb, ◌==◌,
  if◌then◌else◌, field, flag, bit,
}
use amed.Base.Int.{ℤ, pos, negsuc}
use amed.Aarch64.Fields.{decode_logimm}

-- `-m`, and the comparison with a number that is not negative.
abbrev negate : ℕ → ℤ
negate m = if m == 0 then pos 0 else negsuc (m - 1)

abbrev at_most : ℤ → ℕ → Bool
at_most (pos m) limit = leb m limit
at_most (negsuc m) limit = true

-- `-r % 16 <= limit`: the remainder of C has the sign of `-r`.
abbrev minus_mod16_at_most : ℕ → ℕ → Bool
minus_mod16_at_most r limit = at_most (negate (r % 16)) limit

unfoldable pub move_wide_preferred : Bool → Bool → ℕ → ℕ → Bool
move_wide_preferred sf n imms immr =
    let width = if sf then 64 else 32 in
    let rotated_low = minus_mod16_at_most immr (15 - imms) in
    let rotated_high = leb (immr % 16) (imms - (width - 15)) in
    if sf && not n
    then false
    else if not sf && (n || flag 5 imms)
    then false
    else if ltb imms 16
    then rotated_low
    else if leb (width - 15) imms
    then rotated_high
    else false

unfoldable pub bfx_preferred : Bool → Bool → ℕ → ℕ → Bool
bfx_preferred sf uns imms immr =
    let is_sxt = imms == 7 || imms == 15 || imms == 31 in
    if ltb imms immr
    then false
    else if field 0 5 imms == 31 && field 5 1 imms == bit sf
    then false
    else if immr == 0
    then if sf then not (uns && is_sxt) else not (imms == 7 || imms == 15)
    else true

-- The lanes of the union `limm`.
abbrev byte_at : ℕ → ℕ → ℕ
byte_at imm i = field (8 * i) 8 imm

abbrev half_at : ℕ → ℕ → ℕ
half_at imm i = field (16 * i) 16 imm

abbrev word_at : ℕ → ℕ → ℕ
word_at imm i = field (32 * i) 32 imm

-- The bits of a number of `width` bits from `low` up are all clear or all set.
abbrev is_uniform : ℕ → ℕ → ℕ → Bool
is_uniform width low v = v / 2 ^ low == 0 || v / 2 ^ low == 2 ^ (width - low) - 1

abbrev same_words : ℕ → Bool
same_words imm = word_at imm 0 == word_at imm 1

abbrev same_halfs : ℕ → Bool
same_halfs imm = same_words imm && half_at imm 0 == half_at imm 1

unfoldable pub is_dup_byte : ℕ → Bool
is_dup_byte imm =
    is_uniform 64 8 imm
    || same_words imm && is_uniform 32 8 (word_at imm 0)
    || same_halfs imm && is_uniform 16 8 (half_at imm 0)
    || same_halfs imm && byte_at imm 0 == byte_at imm 1

unfoldable pub is_dup_half : ℕ → Bool
is_dup_half imm =
    is_uniform 64 16 imm || same_words imm && is_uniform 32 8 (word_at imm 0) || same_halfs imm

unfoldable pub sve_move_mask_preferred : ℕ → Bool
unfolding is_dup_byte is_dup_half decode_logimm
sve_move_mask_preferred imm13 = elim (decode_logimm imm13 0) [
  | none ↦ false
  | some imm ↦ if byte_at imm 0 == 0 then not (is_dup_half imm) else not (is_dup_byte imm)
]
