-- ===== src/Aarch64/Printer.antt =====
-- source/aarch64/printer.c. As in X86/Printer, a function returns the text that it appends at `pc`,
-- and `none` is a text that does not fit in the size given to `sprintf_s`, or the negation of the
-- least 64-bit number.
pub mod Numbers
mod Operands
pub mod Separators
pub use Operands.{Strings}
unfoldable pub use Operands.{print_argument}
use amed.Base.{
  ℕ, zero, suc, ◌+◌, ◌-◌, Bool, true, false, not, ◌&&◌, Option, none, some, List, [], ◌∷◌, ◌++◌,
  ◌==◌, if◌then◌else◌, length,
}
use amed.Base.Text.{Text, codes, sprintf_s, ◌>>=◌}
use amed.X86.Printer.{Formatter, separator, lower_loop}
use amed.Aarch64.Names.{condition_al}
use amed.Aarch64.State.{Argument, Insn}

-- The condition after the mnemonic.
abbrev condition_text : Strings → Insn → Option Text
condition_text strings insn =
    if not (insn.condition == 0) && not (insn.condition == condition_al)
    then sprintf_s 9 (codes "." ++ strings.arm_condition_to_string insn.condition)
    else some []

-- The loop over the arguments from `i` on, `n` of them left.
unfoldable pub arguments_loop : Strings → Formatter → Insn → ℕ → ℕ → Option Text
unfolding print_argument
arguments_loop strings formatter insn i zero = some []
arguments_loop strings formatter insn i (suc n) =
    let rest = arguments_loop strings formatter insn (suc i) n in
    do
      text ← print_argument strings (insn.arguments i)
      texts ← rest
      let comma = if i == 0 then [] else b',' ∷ separator (formatter.use_tab_between_arguments) ∷ []
      some (comma ++ text ++ texts)

-- The text before any lowering.
unfoldable pub insn_text : Strings → Formatter → Insn → Option Text
unfolding arguments_loop
insn_text strings formatter insn = do
  name ← sprintf_s 10 (strings.mnemonic_to_string insn.mnemonic)
  condition ← condition_text strings insn
  operands ← arguments_loop strings formatter insn 0 insn.argument_count
  some (name ++ condition ++ separator (formatter.use_tab_after_mnem) ∷ operands)

-- The text in the buffer, without its terminator, and the number returned. The loop that lowers the
-- text is that of source/x86/printer.c.
unfoldable pub amed_aarch64_print_insn : Strings → Formatter → Insn → Option (Text × ℕ)
unfolding insn_text lower_loop
amed_aarch64_print_insn strings formatter insn = do
  text ← insn_text strings formatter insn
  let (lowered, moved) = lower_loop text
  some (if formatter.lower_case then (lowered, length text - moved) else (text, length text))
