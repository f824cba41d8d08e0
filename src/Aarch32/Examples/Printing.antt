-- ===== src/Aarch32/Examples/Printing.antt =====
-- The AArch32 printer at `vcvteq.f32.s32 s0, s1`, and at a list of registers.
use amed.Base.{ℕ, ◌+◌, ◌≡◌, refl, true, false, some, ◌==◌, if◌then◌else◌}
use amed.Base.Text.{Text, codes}
use amed.Utils.Binary.{masked_loop}
use amed.Utils.Datatype.{Datatype}
use amed.X86.Printer.{Formatter}
use amed.Aarch32.Names.{register_s0}
use amed.Aarch32.Database.{Node}
use amed.Aarch32.State.{ArgumentType, Argument, Insn}
use amed.Aarch32.Fields.{read_encodedin_value}
use amed.Aarch32.Arguments.Lists.Registers.{set_bits}
use amed.Aarch32.Nodes.{decode_node}
use amed.Aarch32.Entry.{MachineMode}
use amed.Aarch32.Printer.{
  Strings, print_datatypes, print_argument, insn_text, amed_aarch32_print_insn,
}
use amed.Aarch32.Printer.Distinct.{marked, distinct, datatypes_text, print_datatypes-distinct}
use amed.Aarch32.Printer.Whole.{
  operands, names, printed, insn_text-join, decode_node-print_arg_list,
}
use amed.Aarch32.Examples.Fixture.{database, before, empty_argument, empty_insn, list_node}

abbrev name : Text
name = codes "NAME"

abbrev pub strings : Strings
strings = record {
  register_to_string = λ r.
      if r == register_s0
      then codes "S0"
      else if r == register_s0 + 1
      then codes "S1"
      else if r == 1
      then codes "R0"
      else if r == 5
      then codes "R4"
      else codes "PC";
  mnemonic_to_string = λ m. codes "VCVT";
  it_op_to_string = λ op. codes "";
  shift_to_string = λ s. name;
  datatype_to_string =
      λ d. elim d [ Datatype.f32 ↦ codes "F32" | Datatype.s32 ↦ codes "S32" | _ ↦ codes "I8" ];
  arm_condition_to_string = λ c. codes "EQ";
  sync_op_to_string = λ s. name;
  arm_cspace_to_string = λ s. name;
  arm_pspace_to_string = λ s. name;
  arm_barrier_to_string = λ s. name;
  endian_to_string = λ s. name;
  double_to_string = λ a. name;
}

abbrev formatter : Formatter
formatter = record {
  use_tab_after_mnem = false;
  use_tab_between_arguments = false;
  lower_case = false;
}

abbrev single : ℕ → Datatype → Argument
single r datatype = record empty_argument {
  kind = ArgumentType.register;
  reg_value = r;
  datatype = datatype;
  print_datatype = true;
}

abbrev insn : Insn
insn = record empty_insn {
  mnemonic = 300;
  length = 4;
  condition = 1;
  argument_count = 2;
  arguments = λ i.
      if i == 0 then single register_s0 Datatype.f32 else single (register_s0 + 1) Datatype.s32;
}

whole_text :
    amed_aarch32_print_insn strings formatter MachineMode.thumb insn
    ≡ some (codes "VCVTEQ.F32.S32 S0, S1", 21)
unfolding amed_aarch32_print_insn
whole_text = refl

print_datatypes-distinct_example : print_datatypes strings insn ≡ some (codes ".F32.S32")
unfolding datatypes_text distinct marked
print_datatypes-distinct_example = print_datatypes-distinct insn strings

insn_text-join_example :
    insn_text strings formatter MachineMode.arm insn ≡ some (codes "VCVTEQ.F32.S32 S0, S1")
unfolding datatypes_text distinct marked operands print_argument
insn_text-join_example = insn_text-join strings formatter insn MachineMode.arm

decode_node-print_arg_list_example :
    printed strings (
      decode_node database
        (record before { opcode = 0x8011 })
        empty_argument
        (Node.glist list_node))
    ≡ some (codes "{R0, R4, PC}")
unfolding names set_bits read_encodedin_value masked_loop
decode_node-print_arg_list_example =
    decode_node-print_arg_list strings database (record before { opcode = 0x8011 }) empty_argument
      list_node
