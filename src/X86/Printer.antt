-- ===== src/X86/Printer.antt =====
-- source/x86/printer.c. Each function returns the text that it appends at `pc`; `none` is a call of
-- `sprintf_s` whose text does not fit in the size that it is given, and the negation of the least
-- 64-bit number, which C leaves undefined.
mod Numbers
mod Operands
mod Formats
pub mod Values
pub mod Separators
pub mod Returned
use Operands.{mnemonic_max_text_length}
pub use Operands.{Strings}
pub use Numbers.{negated, widen16, format8, format16, format32, format64}
unfoldable pub use Numbers.{sign_of, format_of, print_imm_value}
unfoldable pub use Operands.{print_prefixes, print_argument}
use amed.Base.{
  ℕ, zero, suc, ◌+◌, ◌-◌, Bool, true, false, Option, none, some, List, [], ◌∷◌, ◌++◌, leb, ◌&&◌,
  ◌==◌, if◌then◌else◌, length,
}
use amed.Base.Text.{Text, codes, sprintf_s, ◌>>=◌}
use amed.X86.State.{Argument, Insn}

-- `amed_formatter`.
pub record Formatter : Type 0 where
  pub use_tab_after_mnem : Bool
  pub use_tab_between_arguments : Bool
  pub lower_case : Bool

abbrev pub separator : Bool → ℕ
separator use_tab = if use_tab then b'\t' else b' '

-- The loop over the arguments from `i` on, `n` of them left.
unfoldable pub arguments_loop : Strings → Formatter → Insn → ℕ → ℕ → Option Text
unfolding print_argument
arguments_loop strings formatter insn i zero = some []
arguments_loop strings formatter insn i (suc n) =
    let rest = arguments_loop strings formatter insn (suc i) n in
    if (insn.arguments i).is_suppressed then rest else do
      text ← print_argument strings insn (insn.arguments i)
      texts ← rest
      let comma = if i == 0 then [] else b',' ∷ separator (formatter.use_tab_between_arguments) ∷ []
      some (comma ++ text ++ texts)

unfoldable pub tolower : ℕ → ℕ
tolower c = if leb b'A' c && leb c b'Z' then c + 32 else c

-- The loop that lowers the buffer up to its terminator: what it leaves there, and how far it has
-- moved `buffer`.
unfoldable pub lower_loop : Text → Text × ℕ
unfolding tolower
lower_loop [] = ([], 0)
lower_loop (c ∷ s) =
    let (lowered, moved) = lower_loop s in
    if c == 0 then (c ∷ s, 0) else (tolower c ∷ lowered, suc moved)

-- What follows the mnemonic.
unfoldable pub operands_text : Strings → Formatter → Insn → Option Text
unfolding arguments_loop
operands_text strings formatter insn = if insn.argument_count == 0 then some [] else do
  texts ← arguments_loop strings formatter insn 0 (insn.argument_count)
  some (separator (formatter.use_tab_after_mnem) ∷ texts)

-- The text before any lowering.
unfoldable pub insn_text : Strings → Formatter → Insn → Option Text
unfolding print_prefixes operands_text
insn_text strings formatter insn = do
  name ← sprintf_s mnemonic_max_text_length (strings.mnemonic_to_string (insn.mnemonic))
  let opening = print_prefixes insn ++ name
  operands ← operands_text strings formatter insn
  some (opening ++ operands)

-- The text in the buffer, without its terminator, and the number returned: `pc - buffer`.
unfoldable pub amed_x86_print_insn : Strings → Formatter → Insn → Option (Text × ℕ)
unfolding insn_text lower_loop
amed_x86_print_insn strings formatter insn = do
  text ← insn_text strings formatter insn
  let (lowered, moved) = lower_loop text
  some (if formatter.lower_case then (lowered, length text - moved) else (text, length text))
