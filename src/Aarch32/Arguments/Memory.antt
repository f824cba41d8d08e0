-- ===== src/Aarch32/Arguments/Memory.antt =====
-- source/aarch32/decoder.c, the memory argument.
use amed.Base.{ℕ, Bool, true, false, ◌||◌, Option, none, some, ◌==◌, if◌then◌else◌, u16}
use amed.Utils.Datatype.{Datatype}
use amed.Aarch32.Names.{MemAccess, register_none}
use amed.Aarch32.Database.{Any, ImmReg, MemNode, Database}
use amed.Aarch32.State.{ArgumentType, Argument, Insn, Internal, Result, ◌andthen◌}
use amed.Aarch32.Fields.{decode_any, value_of}
use amed.Aarch32.Arguments.Registers.{decode_arg_reg, decode_arg_vreg, decode_arg_ereg}
use amed.Aarch32.Arguments.Shifters.{decode_arg_regsh}
use amed.Aarch32.Arguments.Immediates.{decode_arg_imm, decode_arg_immsh}

unfoldable pub decode_anynymous_immreg : Database → Internal → Argument → ImmReg → Result
decode_anynymous_immreg db s a (ImmReg.reg n) = decode_arg_reg db s a n
decode_anynymous_immreg db s a (ImmReg.vreg n) = decode_arg_vreg db s a n
decode_anynymous_immreg db s a (ImmReg.ereg n) = decode_arg_ereg db s a n
decode_anynymous_immreg db s a (ImmReg.regsh n shifter) = decode_arg_regsh db s a n shifter
decode_anynymous_immreg db s a (ImmReg.imm n) = decode_arg_imm db s a n
decode_anynymous_immreg db s a (ImmReg.immsh n shifter) = decode_arg_immsh db s a n shifter
decode_anynymous_immreg db s a ImmReg.other = Result.failed s a

abbrev acquires : Insn → Insn
acquires insn = record insn { is_acquiring = true }

abbrev releases : Insn → Insn
releases insn = record insn { is_releasing = true }

abbrev is_one_access : Insn → Insn
is_one_access insn = record insn { is_atomic = true }

unfoldable pub decode_mem_access : MemAccess → Insn → Insn
decode_mem_access MemAccess.none insn = insn
decode_mem_access MemAccess.unprivileged insn = insn
decode_mem_access MemAccess.acquire insn = acquires insn
decode_mem_access MemAccess.release insn = releases insn
decode_mem_access MemAccess.lorelease insn = releases insn
decode_mem_access MemAccess.loacquire insn = acquires insn
decode_mem_access MemAccess.atomic insn = is_one_access insn
decode_mem_access MemAccess.atomic_release insn = releases (is_one_access insn)
decode_mem_access MemAccess.atomic_acquire insn = acquires (is_one_access insn)

abbrev start_mem : Argument → Argument
start_mem a = record a {
  mem = record (a.mem) {
    regoff = register_none;
    immoff_datatype = Datatype.none;
    immoff_value = 0;
  };
}

abbrev set_base : Argument → Argument
set_base a = record a { mem = record (a.mem) { base = a.reg_value } }

abbrev is_immediate : ArgumentType → Bool
is_immediate ArgumentType.immediate = true
is_immediate _ = false

abbrev set_offset : Argument → Argument
set_offset a =
    if is_immediate a.kind
    then record a { mem = record (a.mem) { immoff_datatype = a.datatype; immoff_value = a.imm } }
    else record a { mem = record (a.mem) { regoff = a.reg_value } }

-- The value of a node, or the default of a node that is not there.
abbrev pub value_or : Database → ℕ → ℕ → Option Any → Option ℕ
value_or db opcode default none = some default
value_or db opcode default (some node) = value_of (decode_any db opcode node)

-- What the function stores after the base and the offset.
unfoldable pub finish_mem : Internal → Argument → MemNode → ℕ → ℕ → Result
finish_mem s a node add align =
    let insn = record (s.insn) {
      may_load = s.insn.may_load || node.read;
      may_store = s.insn.may_store || node.write;
    } in
    Result.decoded
      (record s { insn = decode_mem_access (node.stacc) (decode_mem_access (node.ldacc) insn) })
      (record a {
        kind = ArgumentType.memory;
        size = elim (node.size) [ none ↦ 0 | some size ↦ u16 size ];
        read = node.read;
        write = node.write;
        write_back = node.pre_indexed || node.post_indexed;
        is_post_indexed = node.post_indexed;
        is_pre_indexed = node.pre_indexed;
        is_adding = add == 1;
        mem = record (a.mem) { alignement = u16 align; address_size = 32 };
      })

-- The alignment, and what follows.
unfoldable pub decode_align : Database → MemNode → ℕ → Internal → Argument → Result
decode_align db node add s a = elim (value_or db (s.opcode) 0 (node.align)) [
  | none ↦ Result.failed s a
  | some align ↦ finish_mem s a node add align
]

-- The offset, if the node has one, and what follows. The sign is only read where there is an offset.
unfoldable pub decode_offset : Database → MemNode → Internal → Argument → Result
decode_offset db node s a = elim (node.regoff) [
  | none ↦ decode_align db node 1 s a
  | some offset ↦ elim (value_or db (s.opcode) 1 (node.add)) [
    | none ↦ Result.failed s a
    | some add ↦ decode_anynymous_immreg db s a offset andthen λ s1 a1.
        decode_align db node add s1 (set_offset a1)
  ]
]

unfoldable pub decode_arg_mem : Database → Internal → Argument → MemNode → Result
decode_arg_mem db s a node = decode_anynymous_immreg db s (start_mem a) (node.base) andthen λ s1 a1.
    decode_offset db node s1 (set_base a1)
