-- ===== src/Aarch32/Arguments/Immediates.antt =====
-- source/aarch32/decoder.c, the immediates. A store in `i32` leaves the upper half of the 64 bits 0.
use amed.Base.{
  ℕ, ◌+◌, ◌-◌, ◌*◌, ◌%◌, ◌^◌, Bool, ◌||◌, Option, none, some, ◌==◌, if◌then◌else◌, u32, flag,
}
use amed.Base.Int.{pattern64}
use amed.Utils.Binary.{sign_extend64}
use amed.Utils.Datatype.{Datatype}
use amed.ArmImm.{decode_advsimd_imm, decode_vfp_imm}
use amed.Aarch64.Arguments.Immediates.{sub32}
use amed.Aarch32.Names.{Symbol, mnemonic_bfc, mnemonic_bfi, mnemonic_sbfx, mnemonic_ubfx}
use amed.Aarch32.Database.{Any, Shifter, Database}
use amed.Aarch32.State.{ArgumentType, Argument, Internal, Result, ◌andthen◌}
use amed.Aarch32.Fields.{AnyValue, decode_any}
use amed.Aarch32.Immediates.{decode_a32_imm, decode_t32_imm}
use amed.Aarch32.Arguments.Shifters.{decode_arg_shifter}

unfoldable pub decode_imm_width : ℕ → ℕ → ℕ → ℕ
decode_imm_width mnemonic lsb value =
    if mnemonic == mnemonic_ubfx || mnemonic == mnemonic_sbfx
    then u32 (value + 1)
    else if mnemonic == mnemonic_bfc || mnemonic == mnemonic_bfi
    then sub32 (value + 1) lsb
    else value

abbrev pub decode_imm_lsb : Internal → ℕ → Internal
decode_imm_lsb s value = record s { lsb = value }

-- A pattern of 32 bits, extended by its sign to 64.
abbrev pub extend32 : ℕ → ℕ
extend32 v = if flag 31 v then v + (2 ^ 64 - 2 ^ 32) else v

-- The default case: the value, extended by its sign, times the scale.
unfoldable pub decode_imm_default : Any → ℕ → ℕ → Option ℕ
decode_imm_default node value size =
    let scaled = λ (v : ℕ). if node.scale == 0 then v else v * extend32 node.scale % 2 ^ 64 in
    if node.signpos
    then if size == 0 then none else elim (sign_extend64 value (size - 1)) [
      | none ↦ none
      | some v ↦ some (scaled (pattern64 v))
    ]
    else some (scaled value)

-- An immediate with its data type; a call that C leaves undefined has none.
abbrev pub of_option : Internal → Argument → Datatype → Option ℕ → Result
of_option s a dt none = Result.undefined
of_option s a dt (some v) = Result.decoded s (record a { imm = v; datatype = dt })

abbrev pub checked : Bool → Internal → Argument → Result
checked ok s a = if ok then Result.decoded s a else Result.failed s a

-- The `switch` on the symbol, for a value that is read of the opcode.
unfoldable pub decode_imm_symbol : Internal → Argument → Any → ℕ → ℕ → Symbol → Result
decode_imm_symbol s a node value size Symbol.width =
    Result.decoded s
      (record a { imm = decode_imm_width (s.insn.mnemonic) (s.lsb) value; datatype = Datatype.u8 })
decode_imm_symbol s a node value size Symbol.lsb =
    Result.decoded (decode_imm_lsb s value) (record a { imm = value; datatype = Datatype.u8 })
decode_imm_symbol s a node value size Symbol.aimm =
    of_option s a Datatype.i32 (decode_a32_imm value)
decode_imm_symbol s a node value size Symbol.timm =
    of_option s a Datatype.i32 (decode_t32_imm value)
decode_imm_symbol s a node value size Symbol.vfpimm =
    let (ok, number) = decode_vfp_imm value in
    checked ok s (record a { fpimm = number; datatype = node.datatype })
decode_imm_symbol s a node value size Symbol.advimm =
    let (ok, imm, dt) = decode_advsimd_imm value in
    checked ok s (record a { imm = imm; datatype = dt })
decode_imm_symbol s a node value size Symbol.shift_left =
    Result.decoded s (record a { imm = sub32 value (node.scale); datatype = node.datatype })
decode_imm_symbol s a node value size Symbol.fbits_right =
    Result.decoded s (record a { imm = sub32 (node.scale) value; datatype = node.datatype })
decode_imm_symbol s a node value size Symbol.shift_right =
    Result.decoded s (record a { imm = sub32 (node.scale) value; datatype = node.datatype })
decode_imm_symbol s a node value size _ =
    of_option s a (node.datatype) (decode_imm_default node value size)

-- What follows the call of decode_any. A value that no item of the table has counts as 0.
unfoldable pub decode_imm_any : Internal → Argument → Any → AnyValue → Result
decode_imm_any s a node AnyValue.failed = Result.decoded s (record a { datatype = node.datatype })
decode_imm_any s a node (AnyValue.plain v) =
    Result.decoded s (record a { imm = u32 v; datatype = node.datatype })
decode_imm_any s a node (AnyValue.table v) =
    Result.decoded s (record a { imm = u32 v; datatype = node.datatype })
decode_imm_any s a node (AnyValue.encodedin v size) =
    decode_imm_symbol s a node v size (node.symbol)

unfoldable pub decode_arg_imm : Database → Internal → Argument → Any → Result
decode_arg_imm db s a node =
    decode_imm_any s (record a { kind = ArgumentType.immediate; imm = 0 }) node
      (decode_any db (s.opcode) node)

unfoldable pub decode_arg_immsh : Database → Internal → Argument → Any → Shifter → Result
decode_arg_immsh db s a imm shifter =
    decode_arg_imm db s a imm andthen λ s1 a1. decode_arg_shifter db s1 a1 shifter
