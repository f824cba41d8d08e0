-- ===== src/Aarch32/Arguments/Enums.antt =====
-- source/aarch32/decoder.c, the arguments that name a value, and system registers.
use amed.Base.{ℕ, ◌+◌, Bool, true, false, Option, none, some, ◌==◌, if◌then◌else◌, u8, u16, u32}
use amed.Utils.Datatype.{Datatype}
use amed.Aarch32.Database.{EnumType, Any, Database}
use amed.Aarch32.State.{ArgumentType, Argument, Internal, Result, ◌andthen◌, unpredictable}
use amed.Aarch32.Fields.{read_encodedin_value, lookup_tv, decode_any, value_of}

-- The first `switch`.
unfoldable pub enum_argument_type : EnumType → Option ArgumentType
enum_argument_type EnumType.cspace = some ArgumentType.cspace
enum_argument_type EnumType.pspace = some ArgumentType.pspace
enum_argument_type EnumType.cond = some ArgumentType.condition
enum_argument_type EnumType.endian = some ArgumentType.endian
enum_argument_type EnumType.sync_op = some ArgumentType.sync_op
enum_argument_type EnumType.barrier = some ArgumentType.barrier
enum_argument_type EnumType.bnkdreg = some ArgumentType.register
enum_argument_type EnumType.specreg = some ArgumentType.register
enum_argument_type EnumType.other = none

-- A value that is encoded without a table: the token, and whether it has a name.
unfoldable pub enum_token : ArgumentType → ℕ → ℕ × Bool
enum_token ArgumentType.condition value = (u32 (value + 1), true)
enum_token ArgumentType.cspace value = (u32 (value + 1), true)
enum_token ArgumentType.pspace value = (u32 (value + 1), true)
enum_token _ value = (value, false)

-- The last statements.
abbrev finish_enum : Internal → Argument → ArgumentType → ℕ × Bool → Result
finish_enum s a kind (value, is_representable) =
    Result.decoded s
      (record a { kind = kind; token = value; read = true; is_representable = is_representable })

-- A value that its table does not have stays as it is, without a name.
unfoldable pub decode_enum : Database → Internal → Argument → Any → ArgumentType → Result
decode_enum db s a node kind =
    let (value, size) = read_encodedin_value db (s.opcode) (node.encodedin) in
    let a1 = record a { imm = value } in
    if node.has_encodedin
    then elim (node.table) [
      | none ↦ finish_enum s a1 kind (enum_token kind value)
      | some items ↦ elim (lookup_tv items value) [
        | none ↦ finish_enum s a1 kind (value, false)
        | some tv ↦ finish_enum s a1 kind (tv.value, tv.is_representable)
      ]
    ]
    else finish_enum s a kind (node.value, true)

unfoldable pub decode_arg_enum : Database → Internal → Argument → Any → Result
decode_arg_enum db s a node =
    let a1 = record a { datatype = Datatype.u8; imm = 0 } in
    elim (enum_argument_type (node.enum_type)) [
      | none ↦ Result.failed s a1
      | some kind ↦ decode_enum db s a1 node kind
    ]

-- No flag at all is unpredictable.
unfoldable pub decode_arg_iflags : Database → Internal → Argument → Any → Result
decode_arg_iflags db s a node = elim (value_of (decode_any db (s.opcode) node)) [
  | none ↦ Result.failed s a
  | some raw ↦
      (let empty = raw == 0 in
        Result.decoded (unpredictable s empty) (record a {
          kind = ArgumentType.aif;
          read = true;
          aif = u8 raw;
          is_representable = if empty then false else a.is_representable;
        }))
]

-- The register shares its bytes with the immediate, so that of a value without a name it is that value.
unfoldable pub decode_arg_sysreg : Database → Internal → Argument → Any → Result
decode_arg_sysreg db s a node = decode_arg_enum db s a node andthen λ s1 a1.
    let a2 =
      if a1.is_representable
      then record a1 { kind = ArgumentType.register; reg_value = u16 a1.token }
      else record a1 { reg_value = u16 a1.imm } in
    Result.decoded s1 (record a2 { read = node.read; write = node.write })
