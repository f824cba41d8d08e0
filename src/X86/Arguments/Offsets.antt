-- ===== src/X86/Arguments/Offsets.antt =====
-- source/x86/decoder.c, arguments that are an offset or a pointer in the instruction itself.
use amed.Base.{ℕ, ◌+◌, ◌*◌, Bool, true, false, ◌||◌, ◌==◌, ltb, if◌then◌else◌}
use amed.Base.Int.{ℤ, signed}
use amed.Utils.Datatype.{Datatype, get_normalized_datatype}
use amed.X86.Names.{BytecodeType, register_none, register_ds}
use amed.X86.Database.{AnyNode}
use amed.X86.State.{ArgumentType, Argument, Internal}
use amed.X86.Fetch.{add_bytecode, advance, bytes_from, le_value}
use amed.X86.Register.{get_real_size}
use amed.X86.Arguments.Slots.{argument_at, set_argument}

abbrev is_none : Datatype → Bool
is_none Datatype.none = true
is_none _ = false

-- The argument of `decode_arg_moffs`, of an offset of `nbytes` bytes.
unfoldable pub moffs_argument : Internal → AnyNode → ℕ → Datatype → ℤ → Argument → Argument
moffs_argument s n nbytes offset_dt offset a =
    let size = get_real_size n.size s.diagram.osz in
    record a {
      kind = ArgumentType.memory;
      size = size;
      number_of_elements = 1;
      datatype =
          get_normalized_datatype (if is_none n.datatype then Datatype.sx else n.datatype) size;
      mem = record (a.mem) {
        immoff_datatype = offset_dt;
        immoff_value = offset;
        address_size = nbytes * 8;
        regoff = register_none;
        broadcasting_from = 0;
        broadcasting_to = 0;
        alignement = 0;
        segment = if s.segment == 0 then register_ds else s.segment;
      };
      read = n.read;
      write = n.write;
      print_size = true;
      print_segment = true;
    }

-- The case of one address size: the check of the bytes left, the offset, and the rest.
unfoldable pub moffs_of_size : Internal → ℕ → AnyNode → ℕ → Datatype → Internal × Bool
moffs_of_size s i n nbytes offset_dt =
    let bytes = bytes_from s.address s.pc nbytes in
    let offset = signed (nbytes * 8) (le_value bytes) in
    if ltb s.nb (s.pc + nbytes)
    then (s, false)
    else let s1 = advance (add_bytecode s bytes BytecodeType.disp).0 nbytes in
      let s2 = set_argument s1 i (moffs_argument s1 n nbytes offset_dt offset (argument_at s1 i)) in
      (
        record s2 {
          insn = record (s2.insn) {
            may_load = s2.insn.may_load || n.read;
            may_store = s2.insn.may_store || n.write;
          };
        },
        true,
      )

unfoldable pub decode_arg_moffs : Internal → ℕ → AnyNode → Internal × Bool
decode_arg_moffs s i n =
    if s.diagram.asz == 0
    then moffs_of_size s i n 2 Datatype.s16
    else if s.diagram.asz == 1
    then moffs_of_size s i n 4 Datatype.s32
    else if s.diagram.asz == 2
    then moffs_of_size s i n 8 Datatype.s64
    else (s, false)

-- The offset of a far pointer, after its segment.
unfoldable pub ptr_offset_of_size : Internal → ℕ → ℕ → ℕ → Datatype → Internal × Bool
ptr_offset_of_size s i seg nbytes offset_dt =
    let bytes = bytes_from s.address s.pc nbytes in
    if ltb s.nb (s.pc + nbytes)
    then (s, false)
    else let s1 = advance (add_bytecode s bytes BytecodeType.disp).0 nbytes in
      (
        set_argument s1 i (record (argument_at s1 i) {
          ptr_datatype = offset_dt;
          ptr_offset = signed (nbytes * 8) (le_value bytes);
          ptr_segment = seg;
          kind = ArgumentType.ptr;
        }),
        true,
      )

-- The segment is read first, and stays read where the offset does not follow.
unfoldable pub decode_arg_ptr : Internal → ℕ → AnyNode → Internal × Bool
decode_arg_ptr s i n =
    let bytes = bytes_from s.address s.pc 2 in
    if ltb s.nb (s.pc + 2)
    then (s, false)
    else let s1 = advance (add_bytecode s bytes BytecodeType.abs_seg).0 2 in
      if s.diagram.osz == 0
      then ptr_offset_of_size s1 i (le_value bytes) 2 Datatype.s16
      else if s.diagram.osz == 1
      then ptr_offset_of_size s1 i (le_value bytes) 4 Datatype.s32
      else (s1, false)
