-- ===== src/Aarch64/Arguments/Enums.antt =====
-- source/aarch64/decoder.c, the arguments that name a value, conditions and system registers.
use amed.Base.{
  ℕ, ◌+◌, Bool, true, false, none, some, [], ◌∷◌, leb, ◌==◌, if◌then◌else◌, field, flag, get_or,
  bit_xor,
}
use amed.Utils.Datatype.{Datatype}
use amed.Aarch64.Names.{condition_eq, cspace_c0}
use amed.Aarch64.Database.{EnumType, Any, Shifter, Database}
use amed.Aarch64.State.{ArgumentType, Argument, Internal, Result, ◌andthen◌}
use amed.Aarch64.Fields.{read_encodedin_value, lookup_tv}
use amed.Aarch64.Arguments.Shifters.{decode_arg_shifter}

-- In the order of `amed_arm_barrier`, whose third is never returned; 0 is no barrier.
unfoldable pub decode_arm_barrier : ℕ → ℕ
decode_arm_barrier value =
    get_or (0 ∷ 13 ∷ 12 ∷ 11 ∷ 0 ∷ 10 ∷ 9 ∷ 8 ∷ 0 ∷ 7 ∷ 6 ∷ 5 ∷ 0 ∷ 4 ∷ 2 ∷ 1 ∷ []) value 0

-- The numbers of `amed_aarch64_prf_op`, where PST stands before PLI; 0 is no operation.
unfoldable pub decode_prf_op : ℕ → ℕ
decode_prf_op value =
    get_or
      (1 ∷ 2 ∷ 3 ∷ 4 ∷ 5 ∷ 6 ∷ 0 ∷ 0 ∷ 13 ∷ 14 ∷ 15 ∷ 16 ∷ 17 ∷ 18 ∷ 0 ∷ 0 ∷ 7 ∷ 8 ∷ 9 ∷ 10 ∷ 11
        ∷ 12 ∷ [])
      value 0

-- The first `switch`.
unfoldable pub enum_argument_type : EnumType → ArgumentType
enum_argument_type EnumType.at_op = ArgumentType.at_op
enum_argument_type EnumType.dc_op = ArgumentType.dc_op
enum_argument_type EnumType.ic_op = ArgumentType.ic_op
enum_argument_type EnumType.tlbi_op = ArgumentType.tlbi_op
enum_argument_type EnumType.sync_op = ArgumentType.sync_op
enum_argument_type EnumType.ctx_op = ArgumentType.ctx_op
enum_argument_type EnumType.prf_op = ArgumentType.prf_op
enum_argument_type EnumType.bti_op = ArgumentType.bti_op
enum_argument_type EnumType.pstatefield = ArgumentType.pstatefield
enum_argument_type EnumType.barrier = ArgumentType.barrier
enum_argument_type EnumType.cond = ArgumentType.condition
enum_argument_type EnumType.invcond = ArgumentType.condition
enum_argument_type EnumType.cspace = ArgumentType.cspace
enum_argument_type EnumType.pattern = ArgumentType.pattern
enum_argument_type EnumType.other = ArgumentType.none

-- The value of a name, if there is one.
abbrev named : ℕ → ℕ → ℕ × Bool
named token value = if token == 0 then (value, false) else (token, true)

-- A value that is encoded without a table: the token, and whether it has a name.
unfoldable pub enum_token : ArgumentType → ℕ → ℕ × Bool
enum_token ArgumentType.cspace value = if leb value 0xf then (value + 1, true) else (value, false)
enum_token ArgumentType.pspace value = if leb value 0xf then (value + 1, true) else (value, false)
enum_token ArgumentType.condition value =
    if leb value 0xf then (value + 1, true) else (value, false)
enum_token ArgumentType.prf_op value = named (decode_prf_op value) value
enum_token ArgumentType.barrier value = named (decode_arm_barrier value) value
enum_token _ value = (value, false)

-- The last statements.
abbrev pub finish_enum : Internal → Argument → ArgumentType → ℕ × Bool → Result
finish_enum s a kind (value, is_representable) =
    Result.decoded s
      (record a { kind = kind; token = value; read = true; is_representable = is_representable })

unfoldable pub decode_arg_enum : Database → Internal → Argument → Any → Result
decode_arg_enum db s a node =
    let kind = enum_argument_type node.enum_type in
    let a1 = record a { datatype = Datatype.u8; imm = 0 } in
    let (value, size) = read_encodedin_value db (s.opcode) (node.encodedin) in
    let a2 = record a1 { imm = value } in
    if node.has_encodedin
    then elim (node.table) [
      | none ↦ finish_enum s a2 kind (enum_token kind value)
      | some items ↦ elim (lookup_tv items value) [
        | none ↦ Result.failed s a2
        | some tv ↦ finish_enum s a2 kind (tv.value, tv.is_representable)
      ]
    ]
    else finish_enum s a1 kind (node.value, true)

unfoldable pub decode_arg_invcond : Database → Internal → Argument → Any → Result
decode_arg_invcond db s a node =
    let (value, size) = read_encodedin_value db (s.opcode) (node.encodedin) in
    Result.decoded s (record a {
      token = bit_xor value 1 + condition_eq;
      kind = ArgumentType.condition;
      is_representable = true;
      read = true;
    })

unfoldable pub decode_arg_patternsh : Database → Internal → Argument → Any → Shifter → Result
decode_arg_patternsh db s a pattern shifter =
    decode_arg_enum db s a pattern andthen λ s1 a1. decode_arg_shifter db s1 a1 shifter

unfoldable pub decode_arg_sysreg : Internal → Argument → Any → Result
decode_arg_sysreg s a node =
    let opcode = s.opcode in
    Result.decoded s (record a {
      sysreg = record {
        op0 = if flag 19 opcode then 3 else 2;
        op1 = field 16 3 opcode;
        op2 = field 5 3 opcode;
        cm = cspace_c0 + field 8 4 opcode;
        cn = cspace_c0 + field 12 4 opcode;
      };
      read = node.read;
      write = node.write;
      kind = ArgumentType.sysreg_encoding;
    })
