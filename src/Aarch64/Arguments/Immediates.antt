-- ===== src/Aarch64/Arguments/Immediates.antt =====
-- source/aarch64/decoder.c, the immediates.
use amed.Base.{
  ℕ, ◌+◌, ◌-◌, ◌*◌, ◌%◌, ◌^◌, Bool, true, false, ◌||◌, ◌&&◌, Option, none, some, bit_and, leb, ◌==◌,
  if◌then◌else◌, u32, field,
}
use amed.Base.Int.{pattern64}
use amed.Utils.Binary.{sign_extend64}
use amed.ArmImm.{decode_advsimd_imm, decode_vfp_imm}
use amed.Aarch64.Names.{
  Symbol, mnemonic_bfc, mnemonic_bfi, mnemonic_bfxil, mnemonic_sbfiz, mnemonic_sbfx, mnemonic_ubfiz,
  mnemonic_ubfx,
}
use amed.Aarch64.Database.{Any, Shifter, Database}
use amed.Aarch64.State.{ArgumentType, Argument, Internal, Result, ◌andthen◌}
use amed.Aarch64.Fields.{AnyValue, decode_any, decode_logimm}
use amed.Aarch64.Arguments.Shifters.{decode_arg_shifter}

-- The shift `hw * 16` and the complement, in 64 bits; the function's result is not used.
unfoldable pub decode_wide_imm_alias : ℕ → ℕ → Bool → ℕ
decode_wide_imm_alias value datasize inverted =
    let hw = field 16 2 value in
    let shift = if leb 2 hw && datasize == 32 then 16 else hw * 16 in
    let imm = value % 2 ^ 16 * 2 ^ shift in if inverted then 2 ^ 64 - 1 - imm else imm

abbrev is_insert : ℕ → Bool
is_insert mnemonic =
    mnemonic == mnemonic_sbfiz
    || mnemonic == mnemonic_ubfiz
    || mnemonic == mnemonic_bfc
    || mnemonic == mnemonic_bfi

abbrev is_extract : ℕ → Bool
is_extract mnemonic =
    mnemonic == mnemonic_sbfx || mnemonic == mnemonic_ubfx || mnemonic == mnemonic_bfxil

-- A difference in 32 bits.
abbrev pub sub32 : ℕ → ℕ → ℕ
sub32 a b = u32 (a + (2 ^ 32 - u32 b))

unfoldable pub decode_imm_width : ℕ → ℕ → ℕ → ℕ
decode_imm_width mnemonic lsb value =
    if is_insert mnemonic
    then u32 (value + 1)
    else if is_extract mnemonic
    then sub32 (value + 1) lsb
    else value

unfoldable pub decode_imm_lsb : ℕ → ℕ → ℕ → ℕ
decode_imm_lsb mnemonic datasize value =
    if is_insert mnemonic then bit_and (sub32 datasize value) (sub32 datasize 1) else value

-- The default case: the value, extended by its sign, times the scale.
unfoldable pub decode_imm_default : Any → ℕ → ℕ → Option ℕ
decode_imm_default node value size =
    let scaled = λ (v : ℕ). if node.scale == 0 then v else v * node.scale % 2 ^ 64 in
    if node.signpos
    then if size == 0 then none else elim (sign_extend64 value (size - 1)) [
      | none ↦ none
      | some v ↦ some (scaled (pattern64 v))
    ]
    else some (scaled value)

-- The `switch` on the symbol, for a value that is read of the opcode. A bit mask that is not decoded
-- leaves 0.
unfoldable pub decode_imm_symbol : Internal → Argument → Any → ℕ → ℕ → Symbol → Result
decode_imm_symbol s a node value size Symbol.wide_imm_inverted =
    Result.decoded s (record a { imm = decode_wide_imm_alias value (s.datasize) true })
decode_imm_symbol s a node value size Symbol.wide_imm_alias =
    Result.decoded s (record a { imm = decode_wide_imm_alias value (s.datasize) false })
decode_imm_symbol s a node value size Symbol.advimm =
    let (ok, imm, dt) = decode_advsimd_imm value in
    Result.decoded s (record a { imm = imm; datatype = dt })
decode_imm_symbol s a node value size Symbol.vfpimm =
    Result.decoded s (record a { fpimm = (decode_vfp_imm value).1 })
decode_imm_symbol s a node value size Symbol.aimm =
    Result.decoded s
      (record a { imm = elim (decode_logimm value (s.datasize)) [ none ↦ 0 | some v ↦ v ] })
decode_imm_symbol s a node value size Symbol.shift_left =
    Result.decoded s (record a { imm = sub32 value (node.scale) })
decode_imm_symbol s a node value size Symbol.fbits_right =
    Result.decoded s (record a { imm = sub32 (node.scale) value })
decode_imm_symbol s a node value size Symbol.shift_right =
    Result.decoded s (record a { imm = sub32 (node.scale) value })
decode_imm_symbol s a node value size Symbol.lsb =
    let lsb = decode_imm_lsb (s.insn.mnemonic) (s.datasize) value in
    Result.decoded (record s { lsb = lsb }) (record a { imm = lsb })
decode_imm_symbol s a node value size Symbol.width =
    Result.decoded s (record a { imm = decode_imm_width (s.insn.mnemonic) (s.lsb) value })
decode_imm_symbol s a node value size _ = elim (decode_imm_default node value size) [
  | none ↦ Result.undefined
  | some imm ↦ Result.decoded s (record a { imm = imm })
]

-- What follows the call of decode_any. A value that no item of the table has counts as 0.
unfoldable pub decode_imm_any : Internal → Argument → Any → AnyValue → Result
decode_imm_any s a node AnyValue.failed = Result.decoded s a
decode_imm_any s a node (AnyValue.plain v) = Result.decoded s (record a { imm = u32 v })
decode_imm_any s a node (AnyValue.table tv) = Result.decoded s (record a { imm = u32 tv.value })
decode_imm_any s a node (AnyValue.encodedin v size) =
    decode_imm_symbol s a node v size (node.symbol)

unfoldable pub decode_arg_imm : Database → Internal → Argument → Any → Result
decode_arg_imm db s a node =
    let a1 = record a {
      kind = ArgumentType.immediate;
      imm = 0;
      datatype = node.datatype;
      read = true;
    } in
    decode_imm_any s a1 node (decode_any db (s.opcode) node)

unfoldable pub decode_arg_immsh : Database → Internal → Argument → Any → Shifter → Result
decode_arg_immsh db s a imm shifter =
    decode_arg_imm db s a imm andthen λ s1 a1. decode_arg_shifter db s1 a1 shifter

unfoldable pub decode_arg_fpimm : Database → Internal → Argument → Any → Result
decode_arg_fpimm db s a node = decode_arg_imm db s a node

unfoldable pub decode_arg_label : Database → Internal → Argument → Any → Result
decode_arg_label db s a node = decode_arg_imm db s a node andthen λ s1 a1.
    Result.decoded s1 (record a1 { kind = ArgumentType.label })
