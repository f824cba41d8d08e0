-- ===== src/Dispatch/Printed.antt =====
-- What amed_print_insn of source/printer.c leaves in the buffer and returns, whatever the architecture.
use amed.Base.{ℕ, zero, suc, ◌≡◌, refl, Bool, true, false, some, length}
use amed.Base.Text.{Text}
use amed.X86.Printer.{Formatter}
use amed.X86.Printer.Returned.{
  has_no_nul, lowered, with_case, lowering_lem, amed_x86_print_insn-lower_case,
}
use amed.Aarch32.Entry as Aarch32Entry
use amed.Aarch32.State as Aarch32State
use amed.Aarch32.Printer as Aarch32Printer
use amed.Aarch64.State as Aarch64State
use amed.Aarch64.Printer as Aarch64Printer
use amed.Dispatch.{
  Architecture, Context, Insn, Build, Strings, PrinterMethod, printer_methods, aarch32_mode, built,
  call_printer, amed_print_insn,
}
use amed.Dispatch.Decoded.{is_built}

module _ (formatter : Formatter) (b : Bool) where
  aarch32-arguments_loop :
      (strings : Aarch32Printer.Strings) (insn : Aarch32State.Insn) (n i : ℕ)
      → Aarch32Printer.arguments_loop strings (with_case formatter b) insn i n
        ≡ Aarch32Printer.arguments_loop strings formatter insn i n
  unfolding Aarch32Printer.arguments_loop
  aarch32-arguments_loop strings insn zero i = refl
  aarch32-arguments_loop strings insn (suc n) i =
      rw (aarch32-arguments_loop strings insn n (suc i)) refl

  aarch32-insn_text :
      (strings : Aarch32Printer.Strings) (mode : Aarch32Entry.MachineMode)
      (insn : Aarch32State.Insn)
      → Aarch32Printer.insn_text strings (with_case formatter b) mode insn
        ≡ Aarch32Printer.insn_text strings formatter mode insn
  unfolding Aarch32Printer.insn_text
  aarch32-insn_text strings mode insn =
      rw (aarch32-arguments_loop strings insn (insn.argument_count) 0) refl

  aarch64-arguments_loop :
      (strings : Aarch64Printer.Strings) (insn : Aarch64State.Insn) (n i : ℕ)
      → Aarch64Printer.arguments_loop strings (with_case formatter b) insn i n
        ≡ Aarch64Printer.arguments_loop strings formatter insn i n
  unfolding Aarch64Printer.arguments_loop
  aarch64-arguments_loop strings insn zero i = refl
  aarch64-arguments_loop strings insn (suc n) i =
      rw (aarch64-arguments_loop strings insn n (suc i)) refl

  aarch64-insn_text :
      (strings : Aarch64Printer.Strings) (insn : Aarch64State.Insn)
      → Aarch64Printer.insn_text strings (with_case formatter b) insn
        ≡ Aarch64Printer.insn_text strings formatter insn
  unfolding Aarch64Printer.insn_text
  aarch64-insn_text strings insn =
      rw (aarch64-arguments_loop strings insn (insn.argument_count) 0) refl

module _ (formatter : Formatter) (text : Text) (n : ℕ) (no_nul : has_no_nul text ≡ true) where
  aarch32-lower_case :
      (strings : Aarch32Printer.Strings) (mode : Aarch32Entry.MachineMode)
      (insn : Aarch32State.Insn)
      → Aarch32Printer.amed_aarch32_print_insn strings (with_case formatter false) mode insn
        ≡ some (text, n)
      → (Aarch32Printer.amed_aarch32_print_insn strings (with_case formatter true) mode insn
          ≡ some (lowered text, 0))
        × (n ≡ length text)
  unfolding Aarch32Printer.amed_aarch32_print_insn
  aarch32-lower_case strings mode insn e =
      rw (aarch32-insn_text formatter true strings mode insn)
        (lowering_lem _ text n no_nul (rw (aarch32-insn_text formatter false strings mode insn) e))

  aarch64-lower_case :
      (strings : Aarch64Printer.Strings) (insn : Aarch64State.Insn)
      → Aarch64Printer.amed_aarch64_print_insn strings (with_case formatter false) insn
        ≡ some (text, n)
      → (Aarch64Printer.amed_aarch64_print_insn strings (with_case formatter true) insn
          ≡ some (lowered text, 0))
        × (n ≡ length text)
  unfolding Aarch64Printer.amed_aarch64_print_insn
  aarch64-lower_case strings insn e =
      rw (aarch64-insn_text formatter true strings insn)
        (lowering_lem _ text n no_nul (rw (aarch64-insn_text formatter false strings insn) e))

built_lem :
    (b : Bool) (method : PrinterMethod) (buffer : Text) (context : Context) (insn : Insn)
    (formatter : Formatter)
    → b ≡ true
    → call_printer (built b method) buffer context insn formatter ≡ method context insn formatter
built_lem true method buffer context insn formatter h = refl
built_lem false method buffer context insn formatter h = absurd cc

module _ (build : Build) (strings : Strings) (buffer : Text) (context : Context) (insn : Insn)
    (formatter : Formatter) (text : Text) (n : ℕ) where
  by_architecture :
      (a : Architecture)
      → is_built build a ≡ true
      → has_no_nul text ≡ true
      → call_printer
          (printer_methods build strings a)
          buffer
          context
          insn
          (with_case formatter false)
        ≡ some (text, n)
      → (call_printer
            (printer_methods build strings a)
            buffer
            context
            insn
            (with_case formatter true)
          ≡ some (lowered text, 0))
        × (n ≡ length text)
  by_architecture Architecture.none there no_nul e = absurd cc
  by_architecture Architecture.x86 there no_nul e = rw there (
      amed_x86_print_insn-lower_case (strings.x86) formatter (insn.x86) text n no_nul
        (rw there at e))
  by_architecture Architecture.aarch32 there no_nul e = rw there (
      aarch32-lower_case formatter text n no_nul (strings.aarch32)
        (aarch32_mode (context.machine_mode)) (insn.aarch32) (rw there at e))
  by_architecture Architecture.aarch64 there no_nul e =
      rw there (
        aarch64-lower_case formatter text n no_nul (strings.aarch64) (insn.aarch64) (rw there at e))

  -- For every architecture whose printer is built: where the call without `lower_case` prints a text,
  -- which has no character 0, it returns the length of the text; the call with `lower_case` then
  -- prints the text in lower case and returns 0.
  pub amed_print_insn-lower_case :
      is_built build context.architecture ≡ true
      → has_no_nul text ≡ true
      → amed_print_insn build strings buffer context insn (with_case formatter false)
        ≡ some (text, n)
      → (amed_print_insn build strings buffer context insn (with_case formatter true)
          ≡ some (lowered text, 0))
        × (n ≡ length text)
  unfolding amed_print_insn
  amed_print_insn-lower_case = by_architecture (context.architecture)
