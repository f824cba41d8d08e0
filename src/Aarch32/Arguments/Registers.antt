-- ===== src/Aarch32/Arguments/Registers.antt =====
-- source/aarch32/decoder.c, decode_arg_reg and the registers that are a vector or have an index or a
-- write-back.
use amed.Base.{
  ℕ, ◌+◌, ◌-◌, Bool, true, false, not, ◌&&◌, ◌||◌, none, some, leb, ◌==◌, if◌then◌else◌, u16, flag,
}
use amed.Utils.Datatype.{Datatype}
use amed.Aarch32.Names.{Symbol, register_r0, register_sp, register_pc}
use amed.Aarch32.Database.{Any, Ereg, Wreg, Database}
use amed.Aarch32.State.{ArgumentType, Argument, Internal, Result, ◌andthen◌, unpredictable}
use amed.Aarch32.Fields.{read_encodedin_value, decode_register_value, decode_any, value_of}

-- The register, and whether the instruction is found to be unpredictable. The second of a pair is the
-- next register, unless the first is the last one of its kind.
unfoldable pub decode_reg_node : Database → ℕ → Any → ℕ × Bool
decode_reg_node db opcode node =
    let (raw, size) = read_encodedin_value db opcode (node.encodedin) in
    let value = decode_register_value raw (node.symbol) in
    let is_last = (db.reginfo value).is_last in
    let paired = if node.pair && not is_last then value + 1 else value in
    if node.has_encodedin
    then (paired, node.pair && is_last || node.even && not ((db.reginfo paired).is_even))
    else (node.value, false)

abbrev datatype_or : Datatype → Datatype → Datatype
datatype_or Datatype.none other = other
datatype_or datatype other = datatype

-- The stores in the argument.
unfoldable pub set_reg : Database → Any → ℕ → Argument → Argument
set_reg db node value a =
    let info = db.reginfo value in
    record a {
      reg_value = u16 value;
      print_datatype = node.dt_required;
      read = node.read;
      write = node.write;
      datatype = datatype_or (node.datatype) (info.datatype);
      size = info.size;
      number_of_elements = 1;
      kind = ArgumentType.register;
    }

-- The last two statements.
unfoldable pub note_reg : Any → ℕ → Internal → Internal
note_reg node value s =
    let dst = if node.write then u16 value else s.dst_reg in
    record s {
      dst_reg = dst;
      insn = record (s.insn) {
        is_destructive = s.insn.is_destructive || node.read && dst == u16 value;
      };
    }

-- What the program counter as a register says of the instruction.
unfoldable pub note_pc : Any → Internal → Internal
note_pc node s =
    let interworks = node.iwb || node.erb in
    record s {
      insn = record (s.insn) {
        is_deprecated = s.insn.is_deprecated || node.dpc;
        is_unpredictable = s.insn.is_unpredictable || node.upc || not interworks && node.write;
        may_branch = s.insn.may_branch || interworks || node.write;
      };
    }

unfoldable pub decode_arg_reg : Database → Internal → Argument → Any → Result
unfolding decode_reg_node set_reg note_reg note_pc
decode_arg_reg db s a node =
    let (value, is_unpredictable) = decode_reg_node db (s.opcode) node in
    let s1 = unpredictable s is_unpredictable in
    let a1 = set_reg db node value a in
    if value == register_pc
    then if node.nopc
      then Result.failed s1 a1
      else Result.decoded (note_reg node value (note_pc node s1)) a1
    else if value == register_sp && node.nosp
    then Result.failed s1 a1
    else Result.decoded (note_reg node value s1) a1

unfoldable pub decode_arg_vreg : Database → Internal → Argument → Any → Result
decode_arg_vreg db s a node = decode_arg_reg db s a node andthen λ s1 a1.
    Result.decoded (record s1 { insn = record (s1.insn) { is_vector = true } })
      (record a1 { is_vector = true })

unfoldable pub decode_arg_ereg : Database → Internal → Argument → Ereg → Result
decode_arg_ereg db s a node = decode_arg_reg db s a (node.reg) andthen λ s1 a1.
    elim (value_of (decode_any db (s1.opcode) (node.idx))) [
      | none ↦ Result.failed s1 a1
      | some index ↦ Result.decoded s1 (record a1 { reg_index = index; has_index = true })
    ]

abbrev pub is_wback16 : Symbol → Bool
is_wback16 Symbol.wback16 = true
is_wback16 _ = false

-- The last statements.
unfoldable pub set_wback : Internal → Argument → Bool → Result
set_wback s a write_back =
    let branches = write_back && a.reg_value == register_pc in
    Result.decoded
      (record s {
        insn = record (s.insn) {
          may_branch = s.insn.may_branch || branches;
          is_unpredictable = s.insn.is_unpredictable || branches;
        };
      })
      (record a { write_back = write_back })

-- The write-back. In a 16-bit word the register is written back if it is not in the list. A shift by 32
-- or more, for a register that is none of R0 to S15, is undefined.
unfoldable pub decode_wback : Database → Wreg → Internal → Argument → Result
decode_wback db node s a =
    let (raw, size) = read_encodedin_value db (s.opcode) (node.wback.encodedin) in
    if node.wback.has_encodedin
    then if is_wback16 (node.wback.symbol)
      then if leb register_r0 a.reg_value && leb a.reg_value 32
        then set_wback s a (not (flag (a.reg_value - register_r0) raw))
        else Result.undefined
      else set_wback s a (not (raw == 0))
    else set_wback s a (not (node.wback.value == 0))

unfoldable pub decode_arg_wreg : Database → Internal → Argument → Wreg → Result
decode_arg_wreg db s a node = decode_arg_reg db s a (node.reg) andthen decode_wback db node
