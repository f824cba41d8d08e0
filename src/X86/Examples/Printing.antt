-- ===== src/X86/Examples/Printing.antt =====
-- The x86 printer at `add rax, [rax + rcx * 2 - 8]`.
use amed.Base.{◌≡◌, refl, true, false, some, ◌==◌, if◌then◌else◌}
use amed.Base.Int.{negsuc}
use amed.Base.Text.{Text, codes, digits}
use amed.Utils.Datatype.{Datatype}
use amed.X86.Names.{register_rax}
use amed.X86.State.{ArgumentType, Argument, Insn}
use amed.X86.Printer.{
  Strings, Formatter, print_imm_value, amed_x86_print_insn, operands_text, print_argument,
}
use amed.X86.Printer.Values.{print_imm_value_lem, Printed}
use amed.X86.Printer.Separators.{operands_text_lem, operands}
use amed.X86.Printer.Returned.{with_case}
use amed.X86.Examples.Fixture.{empty_argument, empty_memory, empty_insn}

abbrev pub strings : Strings
strings = record {
  register_to_string = λ r. if r == register_rax then codes "RAX" else codes "RCX";
  mnemonic_to_string = λ m. codes "ADD";
  datatype_to_string = λ d. codes "I64";
  comparison_predicate_to_string = λ t. codes "EQ";
}

abbrev pub formatter : Formatter
formatter = record {
  use_tab_after_mnem = false;
  use_tab_between_arguments = false;
  lower_case = false;
}

abbrev rax_argument : Argument
rax_argument = record empty_argument { kind = ArgumentType.register; reg_value = register_rax }

abbrev memory_argument : Argument
memory_argument = record empty_argument {
  kind = ArgumentType.memory;
  mem = record empty_memory {
    base = register_rax;
    regoff = 54;
    immoff_datatype = Datatype.s8;
    immoff_value = negsuc 7;
  };
  print_shifter = true;
  shifter_amount = 2;
}

abbrev pub insn : Insn
insn = record empty_insn {
  argument_count = 2;
  arguments = λ i. if i == 0 then rax_argument else memory_argument;
}

abbrev pub text : Text
text = codes "ADD RAX, [RAX+RCX*2-8]"

pub printed : amed_x86_print_insn strings (with_case formatter false) insn ≡ some (text, 22)
unfolding amed_x86_print_insn digits
printed = refl

print_imm_value_lem_example : Printed (print_imm_value (negsuc 7) Datatype.s8) false (true, 8)
print_imm_value_lem_example = print_imm_value_lem Datatype.s8 (negsuc 7)

operands_text_lem_example :
    operands_text strings formatter insn ≡ some (codes " RAX, [RAX+RCX*2-8]")
unfolding operands digits print_argument
operands_text_lem_example = operands_text_lem strings formatter insn
