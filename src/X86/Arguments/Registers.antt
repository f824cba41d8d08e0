-- ===== src/X86/Arguments/Registers.antt =====
-- source/x86/decoder.c, register arguments.
use amed.Base.{ℕ, ◌/◌, Bool, true, false, not, ◌&&◌, some, ◌==◌, if◌then◌else◌, u8}
use amed.Utils.Datatype.{get_datatype_size, get_normalized_datatype}
use amed.X86.Names.{register_k0}
use amed.X86.Database.{RegNode, Database}
use amed.X86.State.{ArgumentType, Argument, Internal}
use amed.X86.Register.{decode_node_register_value}
use amed.X86.Arguments.Slots.{argument_at, set_argument}

-- What a register node makes of an argument. The data type that is normalised is the one that the
-- argument has, not the node's.
unfoldable pub register_argument : Database → RegNode → ℕ → Argument → Argument
register_argument db n value a = record a {
  kind = ArgumentType.register;
  reg_value = value;
  size = db.register_size value;
  datatype = get_normalized_datatype a.datatype (db.register_size value);
  number_of_elements = 1;
  is_suppressed = n.suppressed;
  read = n.read;
  write = n.write;
  conditional_reading = n.conditional_reading;
  conditional_writing = n.conditional_writing;
}

unfoldable pub decode_arg_reg : Database → Internal → ℕ → RegNode → Internal × Bool
decode_arg_reg db s i n =
    let (value, s1) = decode_node_register_value s n in
    let s2 = set_argument s1 i (register_argument db n value (argument_at s1 i)) in
    (if n.read then record s2 { src_reg = some i } else s2, true)

unfoldable pub decode_arg_preg : Database → Internal → ℕ → RegNode → Internal × Bool
decode_arg_preg db s i n =
    let (s1, ok) = decode_arg_reg db s i n in
    let a = argument_at s1 i in
    if not ok
    then (s1, false)
    else if a.reg_value == register_k0
    then (set_argument s1 i (record a { is_suppressed = true }), true)
    else let s2 =
        if n.zeroing && s1.diagram.z
        then set_argument s1 i (record a { zeroing = true })
        else set_argument s1 i (record a { merging = true }) in
      (record s2 { insn = record (s2.insn) { is_predicated = true } }, true)

unfoldable pub decode_arg_vreg : Database → Internal → ℕ → RegNode → Internal × Bool
decode_arg_vreg db s i n =
    let (s1, ok) = decode_arg_reg db s i n in
    let a = argument_at s1 i in
    let dtsz = get_datatype_size a.datatype in
    if not ok
    then (s1, false)
    else let s2 = set_argument s1 i (record a {
      number_of_elements = if not (a.size == 0) && not (dtsz == 0) then u8 (a.size / dtsz) else 1;
    }) in
      (record s2 { insn = record (s2.insn) { is_vector = true }; vreg = some i }, true)
