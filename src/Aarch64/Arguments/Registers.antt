-- ===== src/Aarch64/Arguments/Registers.antt =====
-- source/aarch64/decoder.c, decode_arg_reg.
use amed.Base.{ℕ, ◌+◌, Bool, true, false, not, ◌&&◌, ◌||◌, none, some, ◌==◌, if◌then◌else◌, u16}
use amed.Aarch64.Database.{Any, Database}
use amed.Aarch64.State.{ArgumentType, Argument, Internal, Result}
use amed.Aarch64.Fields.{read_encodedin_value, decode_register_value, get_register_size}

-- The register, and whether the instruction is found to be unpredictable.
unfoldable pub decode_reg_node : Database → ℕ → Any → ℕ × Bool
decode_reg_node db opcode node =
    let (raw, size) = read_encodedin_value db opcode (node.encodedin) in
    let value = decode_register_value raw (node.symbol) in
    let info = db.reginfo value in
    let paired = if node.pair && not (info.is_last) then value + 1 else value in
    let unpredictable = if node.pair then info.is_last else node.even && not (info.is_even) in
    if node.has_encodedin
    then (if node.sp && raw == 31 then paired + 1 else paired, unpredictable)
    else (node.value, false)

unfoldable pub decode_arg_reg : Database → Internal → Argument → Any → Result
decode_arg_reg db s a node =
    let (value, unpredictable) = decode_reg_node db (s.opcode) node in
    let size : ℕ = elim (get_register_size db (s.vector_size) value) [ none ↦ 0 | some n ↦ n ] in
    let dst = if node.write then u16 value else s.dst_reg in
    Result.decoded
      (record s {
        has_reg = true;
        dst_reg = dst;
        insn = record (s.insn) {
          is_unpredictable = s.insn.is_unpredictable || unpredictable;
          is_destructive = s.insn.is_destructive || node.read && dst == u16 value;
        };
      })
      (record a {
        kind = ArgumentType.register;
        size = u16 size;
        number_of_elements = 1;
        datatype = node.datatype;
        read = node.read;
        write = node.write;
        reg_value = u16 value;
      })
