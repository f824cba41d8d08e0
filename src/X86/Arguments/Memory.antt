-- ===== src/X86/Arguments/Memory.antt =====
-- source/x86/decoder.c, memory arguments and implied or optional broadcasting.
use amed.Base.{
  ℕ, ◌/◌, Bool, true, false, not, ◌&&◌, ◌||◌, Option, none, some, [], ◌∷◌, ◌==◌, ltb, if◌then◌else◌,
  get_or, u8,
}
use amed.Base.Int.{pos}
use amed.Utils.Datatype.{Datatype, get_datatype_size, get_normalized_datatype}
use amed.X86.Names.{register_none}
use amed.X86.Database.{RegNode, MemNode}
use amed.X86.State.{ArgumentType, ShiftType, Memory, Argument, Internal}
use amed.X86.Register.{
  base_s, base_r, get_node_index, get_real_size, get_default_base_segment,
  decode_node_register_value,
}
use amed.X86.Arguments.Slots.{argument_at, set_argument}

-- The register of a node that may be null.
unfoldable pub optional_register : Internal → Option RegNode → ℕ × Internal
optional_register s none = (register_none, s)
optional_register s (some n) = decode_node_register_value s n

-- The base and the index register of an operand that ModRM encodes.
unfoldable pub encoded_base : Internal → ℕ
encoded_base s =
    if not s.has_base
    then register_none
    else if s.diagram.has_sib
    then (decode_node_register_value s base_s).0
    else if not (s.base_ip == 0)
    then s.base_ip
    else (decode_node_register_value s base_r).0

unfoldable pub encoded_regoff : Internal → ℕ → ℕ
encoded_regoff s symbol =
    if s.diagram.has_sib && s.has_index
    then (decode_node_register_value s (get_node_index symbol)).0
    else register_none

-- The two branches on `has_encodedin`: the memory before the segment is settled.
unfoldable pub implicit_memory : Internal → MemNode → Memory → Memory × Internal
implicit_memory s n m =
    let (seg, s1) = optional_register s n.seg in
    let (base, s2) = optional_register s1 n.base in
    (
      record m {
        segment = seg;
        base = base;
        regoff = register_none;
        immoff_datatype = Datatype.none;
        immoff_value = pos 0;
      },
      s2,
    )

unfoldable pub encoded_memory : Internal → MemNode → Memory → Memory
encoded_memory s n m = record m {
  segment = register_none;
  base = encoded_base s;
  regoff = encoded_regoff s n.symbol;
  immoff_datatype = s.disp_datatype;
  immoff_value = s.diagram.disp;
}

-- The rest of `decode_arg_mem`, from the memory found.
unfoldable pub finish_memory : Internal → MemNode → Memory → Argument → Argument
finish_memory s n m a =
    let default_seg = get_default_base_segment m.base in
    let segment =
      if not (m.segment == 0)
      then m.segment
      else if not (s.segment == 0)
      then s.segment
      else default_seg in
    let size = get_real_size n.size s.diagram.osz in
    let datatype = get_normalized_datatype n.datatype size in
    let dtsz = get_datatype_size datatype in
    let with_sib = n.has_encodedin && s.diagram.has_sib in
    record a {
      kind = ArgumentType.memory;
      size = size;
      datatype = datatype;
      number_of_elements = if not (size == 0) && not (dtsz == 0) then u8 (size / dtsz) else 0;
      is_suppressed = n.suppressed;
      read = n.read;
      write = n.write;
      conditional_reading = n.conditional_reading;
      conditional_writing = n.conditional_writing;
      print_segment = not (default_seg == segment);
      print_size = true;
      print_shifter = if with_sib then ltb 1 s.diagram.scale else a.print_shifter;
      shifter_type = if with_sib then ShiftType.mul else a.shifter_type;
      shifter_amount = if with_sib then s.diagram.scale else a.shifter_amount;
      mem = record m {
        segment = segment;
        alignement = if s.encoding.requires_alignment then size else 0;
      };
    }

unfoldable pub decode_arg_mem : Internal → ℕ → MemNode → Internal × Bool
decode_arg_mem s i n =
    let a = argument_at s i in
    let start = record (a.mem) {
      vdatatype = Datatype.none;
      broadcasting_from = 0;
      broadcasting_to = 0;
      address_size = get_or (16 ∷ 32 ∷ 64 ∷ []) s.diagram.asz 0;
    } in
    let (m, s1) =
      if n.has_encodedin then (encoded_memory s n start, s) else implicit_memory s n start in
    let s2 = set_argument s1 i (finish_memory s1 n m (argument_at s1 i)) in
    (
      record s2 {
        insn = record (s2.insn) {
          may_load = s2.insn.may_load || n.read || n.conditional_reading;
          may_store = s2.insn.may_store || n.write || n.conditional_writing;
        };
        vmem = some i;
      },
      true,
    )

-- `decode_arg_address` and `decode_arg_mib`, which are alike.
unfoldable pub decode_arg_address : Internal → ℕ → MemNode → Internal × Bool
decode_arg_address s i n =
    let (s1, ok) = decode_arg_mem s i n in
    if not ok then (s1, false) else (
      set_argument s1 i (record (argument_at s1 i) {
        print_size = false;
        size = 0;
        number_of_elements = 0;
        datatype = Datatype.none;
        kind = ArgumentType.address;
      }),
      true,
    )

unfoldable pub decode_node_sbcst : Internal → ℕ → ℕ → Internal × Bool
decode_node_sbcst s from to = elim (s.vmem) [
  | none ↦ (s, true)
  | some v ↦
      let a = argument_at s v in
      (
        set_argument s v (record a {
          print_broadcasting = false;
          mem = record (a.mem) { broadcasting_from = from; broadcasting_to = to };
        }),
        true,
      )
]

unfoldable pub decode_node_bcst : Internal → Internal × Bool
decode_node_bcst s = elim (s.vmem) [
  | none ↦ (s, false)
  | some v ↦
      let a = argument_at s v in
      if s.diagram.bp
      then (
        set_argument s v (record a {
          size = get_datatype_size a.datatype;
          print_broadcasting = true;
          number_of_elements = 1;
          mem = record (a.mem) { broadcasting_from = 1; broadcasting_to = a.number_of_elements };
        }),
        true,
      )
      else (s, true)
]
