-- ===== src/Aarch64/Printer/Separators.antt =====
-- The separators of source/aarch64/printer.c, against the list of the operands' texts.
use amed.Base.{ℕ, zero, suc, ◌≡◌, refl, false, Option, some, List, [], ◌∷◌}
use amed.Base.Text.{Text, ◌>>=◌}
use amed.X86.Printer.{Formatter}
use amed.X86.Printer.Separators.{
  each_after, join, comma, written-listed, written-listed_first, suc_not_zero,
}
use amed.Aarch64.State.{Insn}
use amed.Aarch64.Printer.{Strings, print_argument, arguments_loop}

-- The texts of the `n` arguments from `i` on.
unfoldable pub operands : Strings → Insn → ℕ → ℕ → Option (List Text)
operands strings insn i zero = some []
operands strings insn i (suc n) =
    let rest = operands strings insn (suc i) n in
    do text ← print_argument strings (insn.arguments i); texts ← rest; some (text ∷ texts)

module _ (strings : Strings) (formatter : Formatter) (insn : Insn) where
  arguments_loop-each_after :
      (n i : ℕ)
      → arguments_loop strings formatter insn (suc i) n
        ≡ (do texts ← operands strings insn (suc i) n; some (each_after (comma formatter) texts))
  unfolding arguments_loop operands
  arguments_loop-each_after zero i = refl
  arguments_loop-each_after (suc n) i =
      rw (suc_not_zero i, arguments_loop-each_after n (suc i))
        (written-listed (comma formatter) false (print_argument strings (insn.arguments (suc i)))
          (operands strings insn (suc (suc i)) n))

  -- What the loop over the first `n` arguments of an instruction writes is the texts of these
  -- arguments, joined by separators; a text that is refused makes the whole refused.
  pub arguments_loop-join :
      (n : ℕ)
      → arguments_loop strings formatter insn 0 n
        ≡ (do texts ← operands strings insn 0 n; some (join (comma formatter) texts))
  unfolding arguments_loop operands
  arguments_loop-join zero = refl
  arguments_loop-join (suc n) = rw (arguments_loop-each_after n 0) (
      written-listed_first (comma formatter) false (print_argument strings (insn.arguments 0))
        (operands strings insn 1 n))
