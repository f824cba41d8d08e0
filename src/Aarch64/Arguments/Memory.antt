-- ===== src/Aarch64/Arguments/Memory.antt =====
-- source/aarch64/decoder.c, the memory argument.
use amed.Base.{
  ℕ, ◌-◌, ◌*◌, ◌/◌, ◌^◌, Bool, true, false, ◌||◌, none, some, ltb, ◌==◌, if◌then◌else◌, u8, u16,
}
use amed.Base.Int.{ℤ, pos, negsuc}
use amed.Utils.Datatype.{Datatype, get_datatype_size}
use amed.Aarch64.Names.{register_none, shift_none}
use amed.Aarch64.Database.{ImmReg, Size, MemNode, Database}
use amed.Aarch64.State.{ArgumentType, Argument, Internal, Result}
use amed.Aarch64.Arguments.Registers.{decode_arg_reg}
use amed.Aarch64.Arguments.Shifters.{
  decode_arg_regsh, decode_arg_vreg, decode_arg_vregsh, decode_arg_ereg,
}
use amed.Aarch64.Arguments.Immediates.{decode_arg_imm, decode_arg_immsh}

unfoldable pub decode_anynymous_immreg : Database → Internal → Argument → ImmReg → Result
decode_anynymous_immreg db s a (ImmReg.reg n) = decode_arg_reg db s a n
decode_anynymous_immreg db s a (ImmReg.ereg n) = decode_arg_ereg db s a n
decode_anynymous_immreg db s a (ImmReg.vreg n) = decode_arg_vreg db s a n
decode_anynymous_immreg db s a (ImmReg.regsh n shifter) = decode_arg_regsh db s a n shifter
decode_anynymous_immreg db s a (ImmReg.vregsh n shifter) = decode_arg_vregsh db s a n shifter
decode_anynymous_immreg db s a (ImmReg.imm n) = decode_arg_imm db s a n
decode_anynymous_immreg db s a (ImmReg.immsh n shifter) = decode_arg_immsh db s a n shifter
decode_anynymous_immreg db s a ImmReg.other = Result.failed s a

-- SIZE_VL and SIZE_PL.
abbrev size_vl : ℤ
size_vl = negsuc 0

abbrev size_pl : ℤ
size_pl = negsuc 1

abbrev same_int : ℤ → ℤ → Bool
same_int (pos a) (pos b) = a == b
same_int (negsuc a) (negsuc b) = a == b
same_int _ _ = false

-- As a pattern of 16 bits. The fields of the node have 16 bits, and are compared as `int`.
unfoldable pub decode_mem_size : ℕ → Size → ℕ
decode_mem_size vector_size node =
    if same_int size_vl (pos node.size)
    then vector_size
    else if same_int size_pl (pos node.size)
    then vector_size / 8
    else if node.esize == 0
    then node.size
    else u16 (node.size * (vector_size / node.esize))

-- The quotient of two `int16_t`, in 8 bits.
abbrev quotient16 : ℕ → ℕ → ℕ
quotient16 size esize =
    if ltb size (2 ^ 15) then u8 (size / esize) else u8 (2 ^ 16 - (2 ^ 16 - size) / esize)

-- The local argument `arg`.
abbrev local_argument : Argument → Argument
local_argument a = record a {
  is_vector = false;
  is_representable = false;
  read = false;
  write = false;
  has_shifter = false;
  zeroing = false;
  merging = false;
  has_index = false;
  is_post_indexed = false;
  is_pre_indexed = false;
  print_datatype = false;
  print_shifter = false;
  print_amount_as_vl = false;
  shifter = record (a.shifter) { kind = shift_none };
}

abbrev start_mem : Argument → Argument
start_mem a = record a {
  mem = record (a.mem) {
    regoff = register_none;
    immoff_datatype = Datatype.none;
    immoff_value = 0;
  };
}

abbrev is_immediate : ArgumentType → Bool
is_immediate ArgumentType.immediate = true
is_immediate _ = false

-- The base that the local argument holds.
abbrev set_base : Argument → Argument → Argument
set_base a arg = record a { mem = record (a.mem) { base = arg.reg_value; address_size = arg.size } }

-- The offset that the local argument holds, with its shifter.
unfoldable pub set_offset : Argument → Argument → Argument
set_offset a arg =
    let a1 =
      if is_immediate arg.kind
      then record a {
        mem = record (a.mem) { immoff_datatype = arg.datatype; immoff_value = arg.imm };
      }
      else record a { mem = record (a.mem) { regoff = arg.reg_value } } in
    if arg.shifter.kind == shift_none then a1 else record a1 {
      shifter = arg.shifter;
      print_amount_as_vl = arg.print_amount_as_vl;
      print_shifter = arg.print_shifter;
    }

-- What the function stores after the base and the offset.
unfoldable pub finish_mem : Internal → Argument → MemNode → Result
finish_mem s a node =
    let size : ℕ = elim (node.size) [ none ↦ 0 | some n ↦ decode_mem_size (s.vector_size) n ] in
    let esize = get_datatype_size node.datatype in
    Result.decoded
      (record s {
        insn = record (s.insn) {
          may_load = node.read || s.insn.may_load;
          may_store = node.write || s.insn.may_store;
        };
      })
      (record a {
        kind = ArgumentType.memory;
        size = size;
        datatype = node.datatype;
        number_of_elements = if size == 0 || esize == 0 then 1 else quotient16 size esize;
        read = node.read;
        write = node.write;
        is_post_indexed = node.post_indexed;
        is_pre_indexed = node.pre_indexed;
      })

-- A result for the local argument is one for the argument of the instruction: `set` takes over what
-- is needed of it where it is decoded.
abbrev pub of_local : Argument → Result → (Internal → Argument → Result) → Result
of_local a (Result.decoded s arg) k = k s arg
of_local a (Result.failed s arg) k = Result.failed s a
of_local a Result.undefined k = Result.undefined

-- The offset, if the node has one, and what follows.
unfoldable pub decode_offset : Database → MemNode → Argument → Internal → Argument → Result
decode_offset db node a s arg = elim (node.regoff) [
  | none ↦ finish_mem s a node
  | some offset ↦
      of_local a (decode_anynymous_immreg db s arg offset)
        λ t local. finish_mem t (set_offset a local) node
]

unfoldable pub decode_arg_mem : Database → Internal → Argument → MemNode → Result
decode_arg_mem db s a node =
    let a1 = start_mem a in
    of_local a1 (decode_anynymous_immreg db s (local_argument (s.stack_argument)) (node.base))
      λ t local. decode_offset db node (set_base a1 local) t local
