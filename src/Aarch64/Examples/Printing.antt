-- ===== src/Aarch64/Examples/Printing.antt =====
-- The A64 printer at `add x0, x1, #8`.
use amed.Base.{ℕ, ◌+◌, ◌≡◌, refl, false, some, ◌==◌, if◌then◌else◌}
use amed.Base.Text.{Text, codes, digits}
use amed.Utils.Datatype.{Datatype}
use amed.X86.Printer.{Formatter}
use amed.Aarch64.Names.{register_x0}
use amed.Aarch64.State.{ArgumentType, Argument, Insn}
use amed.Aarch64.Printer.{Strings, arguments_loop, print_argument, amed_aarch64_print_insn}
use amed.Aarch64.Printer.Separators.{operands, arguments_loop-join}
use amed.Aarch64.Examples.Fixture.{empty_argument, empty_insn}

abbrev name : Text
name = codes "NAME"

abbrev pub strings : Strings
strings = record {
  register_to_string = λ r. if r == register_x0 then codes "X0" else codes "X1";
  mnemonic_to_string = λ m. codes "ADD";
  shift_to_string = λ s. name;
  arm_condition_to_string = λ s. name;
  pattern_to_string = λ s. name;
  at_op_to_string = λ s. name;
  dc_op_to_string = λ s. name;
  ic_op_to_string = λ s. name;
  tlbi_op_to_string = λ s. name;
  sync_op_to_string = λ s. name;
  bti_op_to_string = λ s. name;
  prf_op_to_string = λ s. name;
  ctx_op_to_string = λ s. name;
  arm_cspace_to_string = λ s. name;
  arm_pspace_to_string = λ s. name;
  arm_barrier_to_string = λ s. name;
  double_to_string = λ a. name;
}

abbrev formatter : Formatter
formatter = record {
  use_tab_after_mnem = false;
  use_tab_between_arguments = false;
  lower_case = false;
}

abbrev register_argument : ℕ → Argument
register_argument r = record empty_argument { kind = ArgumentType.register; reg_value = r }

abbrev immediate_argument : Argument
immediate_argument = record empty_argument {
  kind = ArgumentType.immediate;
  datatype = Datatype.u8;
  imm = 8;
}

abbrev insn : Insn
insn = record empty_insn {
  argument_count = 3;
  arguments = λ i.
      if i == 0
      then register_argument register_x0
      else if i == 1
      then register_argument (register_x0 + 1)
      else immediate_argument;
}

printed : amed_aarch64_print_insn strings formatter insn ≡ some (codes "ADD X0, X1, #8", 14)
unfolding amed_aarch64_print_insn digits
printed = refl

arguments_loop-join_example : arguments_loop strings formatter insn 0 3 ≡ some (codes "X0, X1, #8")
unfolding operands print_argument digits
arguments_loop-join_example = arguments_loop-join strings formatter insn 3
