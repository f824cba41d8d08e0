-- ===== src/Aarch32/Examples/Witnesses.antt =====
-- The AArch32 decoder at concrete words.
use amed.Base.{
  ℕ, ◌≡◌, ◌⊎◌, refl, arith, ◌==◌, if◌then◌else◌, Bool, true, false, some, [], ◌∷◌, get_or,
}
use amed.Aarch64.Names.{condition_al}
use amed.Utils.Datatype.{Datatype}
use amed.Aarch32.Names.{Symbol, ItOp, iform_it, register_d0}
use amed.Aarch32.State.{ArgumentType, Argument, Insn, ItBlock, Internal, Result, unpredictable}
use amed.Aarch32.Fields.{read_encodedin_value}
use amed.Aarch32.It.{
  decode_it, decode_thumb_conditional_execution, is_insn_in_it_block, decode_conditional_execution,
  check_condition, it_conditions, get_it_op_from_mask,
}
use amed.Aarch32.It.Expansion.{decode_it-marks, marks, letters, conditions_of}
use amed.Aarch32.Immediates.{decode_a32_imm, decode_t32_imm, copied_imm8}
use amed.Aarch32.Immediates.Expansion.{decode_a32_imm_lem, decode_t32_imm_lem, byte_weight}
use amed.Utils.Binary.{masked_loop}
use amed.Aarch32.Arguments.Enums.{decode_arg_enum, enum_argument_type, decode_enum, enum_token}
use amed.Aarch32.Nodes.{
  decode_encoding, templates_loop, try_template, decode_template, decode_nodes, nodes_loop,
  start_template, decode_node, dispatch_node, finish_template, decode_execution,
}
use amed.Aarch32.Entry.{
  MachineMode, try_alias, clear_insn, fetch, decode_fetched, amed_aarch32_decode_insn,
}
use amed.Aarch32.Frame.Nodes.{IsValid}
use amed.Aarch32.Frame.Entry.{is_arm_mode, Fits, amed_aarch32_decode_insn-IsValid}
use amed.Aarch32.Entry.Short.{needed, amed_aarch32_decode_insn-short}
use amed.Aarch32.Arguments.Labels.{label_symbol}
use amed.Aarch32.Arguments.Labels.Jump.{without_j, label_symbol-labelj}
use amed.Aarch32.Arguments.Lists.{set_access, branches, decode_arg_glist, base_list}
use amed.Aarch32.Arguments.Lists.Registers.{
  set_bits, consecutive, as_list, decode_arg_glist-set_bits, base_list-consecutive,
}
use amed.Aarch32.Examples.Fixture.{
  database, before, no_block, empty_insn, empty_argument, list_node,
}

-- `itte ge`, outside a block.
abbrev itte_ge : Internal
itte_ge = record before {
  insn = record empty_insn { arguments = λ _. record empty_argument { token = 11 } };
  opcode = 0xbfa6;
}

-- The second bit of the three inverts the condition.
decode_it-marks_example :
    let t = decode_it itte_ge in
    (t.itblock.is_in ≡ true)
    × (t.itblock.index ≡ 0)
    × (t.itblock.count ≡ 3)
    × (t.insn.it_insn_count ≡ 3)
    × (t.itblock.conditions ≡ 11 ∷ 11 ∷ 10 ∷ condition_al ∷ [])
    × (letters t.insn.it_op ≡ false ∷ true ∷ [])
    × (t.insn.condition ≡ condition_al)
    × (t.insn.is_unpredictable ≡ false)
unfolding marks conditions_of is_insn_in_it_block
decode_it-marks_example = decode_it-marks itte_ge (omega arith)

-- The instruction after it runs under its condition.
next_of_itte : (decode_thumb_conditional_execution (decode_it itte_ge)).insn.condition ≡ 11
unfolding decode_it it_conditions decode_thumb_conditional_execution decode_conditional_execution
    check_condition
next_of_itte = refl

-- EQ is 1, so what stands for its opposite is 0.
opposite_of_eq :
    (decode_it (record itte_ge {
      insn = record empty_insn { arguments = λ _. record empty_argument { token = 1 } };
      opcode = 0xbf0c;
    })).itblock.conditions
    ≡ 1 ∷ 0 ∷ condition_al ∷ condition_al ∷ []
unfolding decode_it it_conditions
opposite_of_eq = refl

decode_t32_imm_lem_example : decode_t32_imm 0x4ff ≡ some 0x7f800000
unfolding byte_weight
decode_t32_imm_lem_example = decode_t32_imm_lem 0x4ff (omega arith)

copied_in_both_halfs : decode_t32_imm 0x1ab ≡ some 0x00ab00ab
unfolding decode_t32_imm copied_imm8
copied_in_both_halfs = refl

decode_a32_imm_lem_example : decode_a32_imm 0x4ff ≡ some 0xff000000
decode_a32_imm_lem_example = decode_a32_imm_lem 0x4ff (omega arith)

-- `itte ge` in memory.
abbrev pub itte_memory : ℕ → ℕ
itte_memory i = get_or (0xa6 ∷ 0xbf ∷ []) i 0

abbrev pub itte_block : ItBlock
itte_block = record {
  count = 3;
  index = 0;
  is_in = true;
  is_out = false;
  conditions = 11 ∷ 11 ∷ 10 ∷ condition_al ∷ [];
}

abbrev itte_argument : Argument
itte_argument = record empty_argument {
  kind = ArgumentType.condition;
  datatype = Datatype.u8;
  imm = 10;
  token = 11;
  read = true;
  is_representable = true;
}

abbrev pub itte_insn : Insn
itte_insn = record empty_insn {
  iform = iform_it;
  mnemonic = iform_it;
  encoding = 1;
  length = 2;
  categories = 0 ∷ 0 ∷ 0 ∷ 0 ∷ [];
  argument_count = 1;
  arguments =
      λ i. if i == 1 then empty_argument else if i == 0 then itte_argument else empty_argument;
  condition = condition_al;
  it_op = ItOp.te;
  it_insn_count = 3;
}

-- It is decoded, and begins a block of three instructions.
pub itte_ge_decoded :
    amed_aarch32_decode_insn database before MachineMode.thumb false no_block itte_memory 2
      empty_insn
    ≡ some (itte_insn, itte_block, true)
unfolding amed_aarch32_decode_insn decode_fetched fetch decode_encoding templates_loop try_template
    decode_template decode_nodes nodes_loop start_template decode_node dispatch_node decode_arg_enum
    enum_argument_type decode_enum enum_token read_encodedin_value masked_loop try_alias
    finish_template decode_execution decode_it it_conditions get_it_op_from_mask is_insn_in_it_block
itte_ge_decoded = refl

-- One byte of a 16-bit instruction, and three of a 32-bit one.
amed_aarch32_decode_insn-short_example :
    amed_aarch32_decode_insn database before MachineMode.thumb true no_block
      (λ _. 0xf0)
      3
      empty_insn
    ≡ some (record (clear_insn empty_insn) { length = 4 }, no_block, false)
unfolding needed
amed_aarch32_decode_insn-short_example =
    amed_aarch32_decode_insn-short database before MachineMode.thumb true no_block (λ _. 0xf0) 3
      empty_insn (omega arith) (omega arith) (omega arith) (omega arith)

-- A branch whose J1 and J2 are set, in 24 bits.
label_symbol-labelj_example :
    label_symbol before empty_argument list_node 2 24 0x600010 Symbol.labelj
    ≡ label_symbol before empty_argument list_node 2 24 0x000010 Symbol.label
unfolding without_j
label_symbol-labelj_example =
    label_symbol-labelj before empty_argument list_node 2 24 0x600010 (omega arith)

-- `{r0, r4, pc}`, which is written.
decode_arg_glist-set_bits_example :
    decode_arg_glist database (record before { opcode = 0x8011 }) empty_argument list_node
    ≡ Result.decoded
        (branches (record before { opcode = 0x8011 }) true)
        (as_list (set_access empty_argument list_node) (1 ∷ 5 ∷ 16 ∷ []) 3)
unfolding set_bits read_encodedin_value masked_loop
decode_arg_glist-set_bits_example =
    decode_arg_glist-set_bits database (record before { opcode = 0x8011 }) empty_argument list_node

-- Four registers from S30 on, of which there are two.
base_list-consecutive_example :
    base_list register_d0 before (record empty_argument { reg_value = 47 }) 4
    ≡ Result.decoded (unpredictable before true) (
        as_list (record empty_argument { reg_value = 47; number_of_elements = 1 }) (47 ∷ 48 ∷ []) 2)
unfolding consecutive
base_list-consecutive_example =
    base_list-consecutive register_d0 before (record empty_argument { reg_value = 47 }) 4
      (omega arith) (omega arith) (omega arith)

amed_aarch32_decode_insn-IsValid_example :
    IsValid itte_block
    × ((is_arm_mode MachineMode.thumb ≡ false) ⊎ (itte_block ≡ no_block))
    × (◌≡◌ {A = Bool} true false ⊎ Fits database MachineMode.thumb itte_memory 2 itte_insn)
amed_aarch32_decode_insn-IsValid_example =
    amed_aarch32_decode_insn-IsValid database before MachineMode.thumb false no_block itte_memory 2
      empty_insn (record { counted = omega arith; indexed = omega arith; complete = refl })
      itte_ge_decoded
