-- ===== src/Aarch32/Immediates.antt =====
-- source/aarch32/decoder.c, `decode_a32_imm` and `decode_t32_imm` without AGGRESSIVE_OPTIMIZATION,
-- which would read tables that the repository does not have.
pub mod Expansion
use amed.Base.{ℕ, ◌*◌, ◌^◌, Option, some, ◌==◌, if◌then◌else◌, bit_or, u32, field}
use amed.Utils.Binary.{ror}

unfoldable pub decode_a32_imm : ℕ → Option ℕ
decode_a32_imm imm12 =
    let unrotated_value = field 0 8 imm12 in
    let amount = field 8 4 imm12 * 2 in ror unrotated_value amount

-- The cases of the `switch`: `imm8` by itself, in the low bytes of both half words, in the high
-- bytes, and in all bytes.
unfoldable pub copied_imm8 : ℕ → ℕ → ℕ
copied_imm8 which imm8 =
    if which == 0
    then imm8
    else if which == 1
    then bit_or imm8 (u32 (imm8 * 2 ^ 16))
    else if which == 2
    then bit_or (u32 (imm8 * 2 ^ 8)) (u32 (imm8 * 2 ^ 24))
    else bit_or (bit_or (bit_or imm8 (u32 (imm8 * 2 ^ 8))) (u32 (imm8 * 2 ^ 16)))
        (u32 (imm8 * 2 ^ 24))

unfoldable pub decode_t32_imm : ℕ → Option ℕ
decode_t32_imm imm12 =
    if field 10 2 imm12 == 0
    then some (copied_imm8 (field 8 2 imm12) (field 0 8 imm12))
    else ror (bit_or (field 0 7 imm12) (2 ^ 7)) (field 7 5 imm12)
