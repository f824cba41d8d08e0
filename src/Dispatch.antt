-- ===== src/Dispatch.antt =====
-- source/decoder.c and source/printer.c: the choice of the decoder and the printer by the architecture
-- of the context.
pub mod Decoded
pub mod Printed
mod Examples
use amed.Base.{ℕ, Bool, false, Option, some, if◌then◌else◌}
use amed.Base.Text.{Text, ◌>>=◌}
use amed.X86.Database as X86Database
use amed.X86.State as X86State
use amed.X86.Entry as X86Entry
use amed.X86.Printer as X86Printer
use amed.Aarch32.Database as Aarch32Database
use amed.Aarch32.State as Aarch32State
use amed.Aarch32.Entry as Aarch32Entry
use amed.Aarch32.Printer as Aarch32Printer
use amed.Aarch64.Database as Aarch64Database
use amed.Aarch64.State as Aarch64State
use amed.Aarch64.Entry as Aarch64Entry
use amed.Aarch64.Printer as Aarch64Printer

-- `amed_architecture` and `amed_machine_mode`.
pub data Architecture : Type 0 where
  none x86 aarch32 aarch64 : Architecture

pub data MachineMode : Type 0 where
  none mode16 mode64 mode32 thumb : MachineMode

-- `amed_context`. `memory` are the bytes at the address.
pub record Context : Type 0 where
  pub architecture : Architecture
  pub machine_mode : MachineMode
  pub memory : ℕ → ℕ
  pub features : ℕ
  pub length : ℕ
  pub vector_size : ℕ
  pub decode_aliases : Bool
  pub itblock : Aarch32State.ItBlock

-- The one `amed_insn`, as each decoder sees it. The three views are kept apart: a field that two
-- decoders share is one field for each.
pub record Insn : Type 0 where
  pub x86 : X86State.Insn
  pub aarch32 : Aarch32State.Insn
  pub aarch64 : Aarch64State.Insn

-- Which of AMED_X86, AMED_AARCH32 and AMED_AARCH64 are defined.
pub record Build : Type 0 where
  pub has_x86 : Bool
  pub has_aarch32 : Bool
  pub has_aarch64 : Bool

-- The generated tables, and what the stack holds before a call.
pub record Tables : Type 0 where
  pub x86 : X86Database.Database
  pub aarch32 : Aarch32Database.Database
  pub aarch64 : Aarch64Database.Database
  pub x86_stack : X86State.Internal
  pub aarch32_stack : Aarch32State.Internal
  pub aarch64_stack : Aarch64State.Internal

-- How the decoder of x86 and that of AArch32 take the mode.
abbrev pub x86_mode : MachineMode → X86Entry.MachineMode
x86_mode MachineMode.mode16 = X86Entry.MachineMode.mode16
x86_mode MachineMode.mode32 = X86Entry.MachineMode.mode32
x86_mode MachineMode.mode64 = X86Entry.MachineMode.mode64
x86_mode _ = X86Entry.MachineMode.other

abbrev pub aarch32_mode : MachineMode → Aarch32Entry.MachineMode
aarch32_mode MachineMode.mode32 = Aarch32Entry.MachineMode.arm
aarch32_mode MachineMode.thumb = Aarch32Entry.MachineMode.thumb
aarch32_mode _ = Aarch32Entry.MachineMode.other

-- A method returns the context and the instruction that it leaves, and its result.
abbrev pub DecoderMethod : Type 0
DecoderMethod = Context → Insn → Option (Context × Insn × Bool)

abbrev pub x86_decoder_method : Tables → DecoderMethod
x86_decoder_method tables context insn = do
  let before = record (tables.x86_stack) { address = context.memory; insn = insn.x86 }
  (s, ok) ←
      X86Entry.amed_x86_decode_insn tables.x86 (x86_mode context.machine_mode) context.features
        context.length before
  some (context, record insn { x86 = s.insn }, ok)

abbrev pub aarch32_decoder_method : Tables → DecoderMethod
aarch32_decoder_method tables context insn = do
  (decoded, itblock, ok) ←
      Aarch32Entry.amed_aarch32_decode_insn tables.aarch32 tables.aarch32_stack
        (aarch32_mode context.machine_mode) context.decode_aliases context.itblock context.memory
        context.length insn.aarch32
  some (record context { itblock = itblock }, record insn { aarch32 = decoded }, ok)

abbrev pub aarch64_decoder_method : Tables → DecoderMethod
aarch64_decoder_method tables context insn = do
  (decoded, ok) ←
      Aarch64Entry.amed_aarch64_decode_insn tables.aarch64 tables.aarch64_stack context.vector_size
        context.decode_aliases context.memory context.length insn.aarch64
  some (context, record insn { aarch64 = decoded }, ok)

abbrev pub built : {A : Type 0} → Bool → A → Option A
built b method = if b then some method else Option.none

-- The table of methods; a method that is not built is NULL there.
abbrev pub decoder_methods : Build → Tables → Architecture → Option DecoderMethod
decoder_methods build tables Architecture.none = Option.none
decoder_methods build tables Architecture.x86 = built (build.has_x86) (x86_decoder_method tables)
decoder_methods build tables Architecture.aarch32 =
    built (build.has_aarch32) (aarch32_decoder_method tables)
decoder_methods build tables Architecture.aarch64 =
    built (build.has_aarch64) (aarch64_decoder_method tables)

-- What follows the look at the table.
abbrev pub call_decoder : Option DecoderMethod → Context → Insn → Option (Context × Insn × Bool)
call_decoder Option.none context insn = some (context, insn, false)
call_decoder (some method) context insn = method context insn

-- `none` is a call that does not return, or that meets a step that C leaves undefined.
unfoldable pub amed_decode_insn : Build → Tables → Context → Insn → Option (Context × Insn × Bool)
amed_decode_insn build tables context insn =
    call_decoder (decoder_methods build tables (context.architecture)) context insn

-- The tables of names.
pub record Strings : Type 0 where
  pub x86 : X86Printer.Strings
  pub aarch32 : Aarch32Printer.Strings
  pub aarch64 : Aarch64Printer.Strings

-- A method returns what it leaves in the buffer, and its result.
abbrev pub PrinterMethod : Type 0
PrinterMethod = Context → Insn → X86Printer.Formatter → Option (Text × ℕ)

abbrev pub printer_methods : Build → Strings → Architecture → Option PrinterMethod
printer_methods build strings Architecture.none = Option.none
printer_methods build strings Architecture.x86 =
    built (build.has_x86)
      λ context insn formatter. X86Printer.amed_x86_print_insn (strings.x86) formatter (insn.x86)
printer_methods build strings Architecture.aarch32 =
    built (build.has_aarch32) λ context insn formatter.
      Aarch32Printer.amed_aarch32_print_insn (strings.aarch32) formatter
        (aarch32_mode (context.machine_mode)) (insn.aarch32)
printer_methods build strings Architecture.aarch64 =
    built (build.has_aarch64) λ context insn formatter.
      Aarch64Printer.amed_aarch64_print_insn (strings.aarch64) formatter (insn.aarch64)

-- The buffer stays as it was without a method, and the result is 0, `false` in the source.
abbrev pub call_printer :
    Option PrinterMethod → Text → Context → Insn → X86Printer.Formatter → Option (Text × ℕ)
call_printer Option.none buffer context insn formatter = some (buffer, 0)
call_printer (some method) buffer context insn formatter = method context insn formatter

unfoldable pub amed_print_insn :
    Build → Strings → Text → Context → Insn → X86Printer.Formatter → Option (Text × ℕ)
amed_print_insn build strings buffer context insn formatter =
    call_printer (printer_methods build strings (context.architecture)) buffer context insn
      formatter
