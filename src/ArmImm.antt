-- ===== src/ArmImm.antt =====
-- source/armimm.c: the immediates of the ARM floating-point and vector instructions.
mod Table
pub mod Vfp
pub mod Advsimd
mod Examples
unfoldable pub use Table.{vfpimm_table}
use amed.Base.{
  ℕ, ◌+◌, ◌*◌, ◌%◌, ◌^◌, Bool, ◌&&◌, true, false, List, [], ◌∷◌, bit_and, bit_or, ltb, leb, ◌==◌,
  if◌then◌else◌, field, flag, get_or,
}
use amed.Base.Int.{ℤ, pos}
use amed.Utils.Datatype.{Datatype}

-- The result and `*fpimm`, in 128ths.
pub decode_vfp_imm : ℕ → Bool × ℤ
unfolding vfpimm_table
decode_vfp_imm encodedin =
    let ok = leb 0 encodedin && leb encodedin 0xff in
    let byte = encodedin % 2 ^ 8 in (ok, get_or vfpimm_table byte (pos 0))

-- The union `pattern` as its bytes, the lowest first.
abbrev pub pattern_value : List ℕ → ℕ
pattern_value [] = 0
pattern_value (b ∷ bs) = b + 256 * pattern_value bs

-- `saturated[(abcdefgh & (1 << k)) >> k]`.
abbrev saturated : ℕ → ℕ → ℕ
saturated abcdefgh k = if flag k abcdefgh then 0xff else 0x00

-- The bytes that the first `switch` sets, and its data type.
pub advsimd_pattern : ℕ → Bool → ℕ → List ℕ × Datatype
advsimd_pattern cmode op x =
    if leb cmode 1
    then (x ∷ 0 ∷ 0 ∷ 0 ∷ x ∷ 0 ∷ 0 ∷ 0 ∷ [], Datatype.i32)
    else if leb cmode 3
    then (0 ∷ x ∷ 0 ∷ 0 ∷ 0 ∷ x ∷ 0 ∷ 0 ∷ [], Datatype.i32)
    else if leb cmode 5
    then (0 ∷ 0 ∷ x ∷ 0 ∷ 0 ∷ 0 ∷ x ∷ 0 ∷ [], Datatype.i32)
    else if leb cmode 7
    then (0 ∷ 0 ∷ 0 ∷ x ∷ 0 ∷ 0 ∷ 0 ∷ x ∷ [], Datatype.i32)
    else if leb cmode 9
    then (x ∷ 0 ∷ x ∷ 0 ∷ x ∷ 0 ∷ x ∷ 0 ∷ [], Datatype.i16)
    else if leb cmode 11
    then (0 ∷ x ∷ 0 ∷ x ∷ 0 ∷ x ∷ 0 ∷ x ∷ [], Datatype.i16)
    else if cmode == 12
    then (0xff ∷ x ∷ 0 ∷ 0 ∷ 0xff ∷ x ∷ 0 ∷ 0 ∷ [], Datatype.i32)
    else if cmode == 13
    then (0xff ∷ 0xff ∷ x ∷ 0 ∷ 0xff ∷ 0xff ∷ x ∷ 0 ∷ [], Datatype.i32)
    else if cmode == 14
    then if op
      then (
        saturated x 0
            ∷ saturated x 1
            ∷ saturated x 2
            ∷ saturated x 3
            ∷ saturated x 4
            ∷ saturated x 5
            ∷ saturated x 6
            ∷ saturated x 7
            ∷ [],
        Datatype.i64,
      )
      else (x ∷ x ∷ x ∷ x ∷ x ∷ x ∷ x ∷ x ∷ [], Datatype.i8)
    else if cmode == 15
    then if op
      then (let abbbbbbb = bit_or (bit_and x 0x80) (if flag 6 x then 0x3f else 0x40) in
          let bbcdefgh = bit_or (bit_and x 0x3f) (if flag 6 x then 0xc0 else 0x00) in
          (0 ∷ 0 ∷ 0 ∷ 0 ∷ 0 ∷ 0 ∷ bbcdefgh ∷ abbbbbbb ∷ [], Datatype.f64))
      else (let defgh000 = bit_and x 0x1f * 2 ^ 3 in
          let abbbbbbc =
            bit_or (bit_or (bit_and x 0x80) (if flag 6 x then 0x3e else 0x40))
              (if flag 5 x then 1 else 0) in
          (0 ∷ 0 ∷ defgh000 ∷ abbbbbbc ∷ 0 ∷ 0 ∷ defgh000 ∷ abbbbbbc ∷ [], Datatype.f32))
    else (0 ∷ 0 ∷ 0 ∷ 0 ∷ 0 ∷ 0 ∷ 0 ∷ 0 ∷ [], Datatype.none)

-- The second `switch`, which cuts the pattern down to one element.
pub fix_immediate : Datatype → ℕ → ℕ
fix_immediate Datatype.i8 value = value % 2 ^ 8
fix_immediate Datatype.i16 value = value % 2 ^ 16
fix_immediate Datatype.i32 value = value % 2 ^ 32
fix_immediate Datatype.f32 value = value % 2 ^ 32
fix_immediate _ value = value

-- The result, `*imm` and `*outdt`.
pub decode_advsimd_imm : ℕ → Bool × ℕ × Datatype
unfolding advsimd_pattern fix_immediate
decode_advsimd_imm encodedin =
    let cmode = field 8 4 encodedin in
    let op = flag 12 encodedin in
    let abcdefgh = encodedin % 2 ^ 8 in
    let (bytes, dt) = advsimd_pattern cmode op abcdefgh in
    (true, fix_immediate dt (pattern_value bytes), dt)
