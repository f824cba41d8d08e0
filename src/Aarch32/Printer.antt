-- ===== src/Aarch32/Printer.antt =====
-- source/aarch32/printer.c. As in X86/Printer, a function returns the text that it appends at `pc`,
-- and `none` is a text that does not fit in the size given to `sprintf_s`, or the negation of the
-- least 64-bit number.
mod Operands
mod Datatypes
pub mod Distinct
pub mod Whole
pub use Operands.{Strings, register_text}
unfoldable pub use Operands.{list_loop, print_arg_list, print_argument}
unfoldable pub use Datatypes.{note_datatype, print_datatypes}
use amed.Base.{
  ℕ, zero, suc, ◌-◌, Bool, true, false, not, ◌&&◌, Option, none, some, List, [], ◌∷◌, ◌++◌, ◌==◌,
  if◌then◌else◌, length,
}
use amed.Base.Text.{Text, codes, sprintf_s, ◌>>=◌}
use amed.X86.Printer.{Formatter, separator, lower_loop}
use amed.Aarch64.Names.{condition_al}
use amed.Aarch32.Names.{mnemonic_it, condition_none}
use amed.Aarch32.State.{Argument, Insn}
use amed.Aarch32.Entry.{MachineMode}

-- What follows the mnemonic: the letters of an IT, or the condition.
abbrev pub condition_text : Strings → Insn → Option Text
condition_text strings insn =
    if insn.mnemonic == mnemonic_it
    then sprintf_s 5 (strings.it_op_to_string insn.it_op)
    else if not (insn.condition == condition_none) && not (insn.condition == condition_al)
    then sprintf_s 5 (strings.arm_condition_to_string insn.condition)
    else some []

abbrev pub qualifier_text : MachineMode → Insn → Option Text
qualifier_text MachineMode.thumb insn =
    if insn.length == 4 && insn.show_qualifier then sprintf_s 4 (codes ".W") else some []
qualifier_text _ insn = some []

-- The loop over the arguments from `i` on, `n` of them left.
unfoldable pub arguments_loop : Strings → Formatter → Insn → ℕ → ℕ → Option Text
unfolding print_argument
arguments_loop strings formatter insn i zero = some []
arguments_loop strings formatter insn i (suc n) =
    let rest = arguments_loop strings formatter insn (suc i) n in
    do
      text ← print_argument strings (insn.arguments i)
      texts ← rest
      let comma = if i == 0 then [] else b',' ∷ separator (formatter.use_tab_between_arguments) ∷ []
      some (comma ++ text ++ texts)

-- The text before any lowering.
unfoldable pub insn_text : Strings → Formatter → MachineMode → Insn → Option Text
unfolding arguments_loop print_datatypes
insn_text strings formatter mode insn = do
  name ← sprintf_s 10 (strings.mnemonic_to_string insn.mnemonic)
  condition ← condition_text strings insn
  qualifier ← qualifier_text mode insn
  datatypes ← print_datatypes strings insn
  operands ← arguments_loop strings formatter insn 0 insn.argument_count
  some (
      name
      ++ condition
      ++ qualifier
      ++ datatypes
      ++ separator (formatter.use_tab_after_mnem) ∷ operands)

-- The text in the buffer, without its terminator, and the number returned. The loop that lowers the
-- text is that of source/x86/printer.c.
unfoldable pub amed_aarch32_print_insn :
    Strings → Formatter → MachineMode → Insn → Option (Text × ℕ)
unfolding insn_text lower_loop
amed_aarch32_print_insn strings formatter mode insn = do
  text ← insn_text strings formatter mode insn
  let (lowered, moved) = lower_loop text
  some (if formatter.lower_case then (lowered, length text - moved) else (text, length text))
