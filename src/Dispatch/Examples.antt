-- ===== src/Dispatch/Examples.antt =====
-- The choice by architecture: `itte ge` in Thumb, and `add rax, [rax+rcx*2-8]` in lower case.
use amed.Base.{◌≡◌, refl, true, false, some, [], length}
use amed.Base.Text.{codes}
use amed.X86.Printer.{tolower}
use amed.X86.Printer.Returned.{lowered, with_case}
use amed.X86.Examples.Fixture as X86Fixture
use amed.X86.Examples.Start as X86Start
use amed.X86.Examples.Printing as X86Printing
use amed.Aarch32.Examples.Fixture as Aarch32Fixture
use amed.Aarch32.Examples.Witnesses as Aarch32Witnesses
use amed.Aarch32.Examples.Printing as Aarch32Printing
use amed.Aarch64.Examples.Fixture as Aarch64Fixture
use amed.Aarch64.Examples.Printing as Aarch64Printing
use amed.Dispatch.{
  Architecture, MachineMode, Context, Insn, Build, Tables, Strings, amed_decode_insn,
  amed_print_insn,
}
use amed.Dispatch.Printed.{amed_print_insn-lower_case}

abbrev all : Build
all = record { has_x86 = true; has_aarch32 = true; has_aarch64 = true }

abbrev tables : Tables
tables = record {
  x86 = X86Fixture.database;
  aarch32 = Aarch32Fixture.database;
  aarch64 = Aarch64Fixture.database;
  x86_stack = X86Start.start;
  aarch32_stack = Aarch32Fixture.before;
  aarch64_stack = Aarch64Fixture.before;
}

abbrev insn : Insn
insn = record {
  x86 = X86Printing.insn;
  aarch32 = Aarch32Fixture.empty_insn;
  aarch64 = Aarch64Fixture.empty_insn;
}

abbrev context : Context
context = record {
  architecture = Architecture.aarch32;
  machine_mode = MachineMode.thumb;
  memory = Aarch32Witnesses.itte_memory;
  features = 0;
  length = 2;
  vector_size = 0;
  decode_aliases = false;
  itblock = Aarch32Fixture.no_block;
}

abbrev in_block : Context
in_block = record context { itblock = Aarch32Witnesses.itte_block }

abbrev decoded_insn : Insn
decoded_insn = record insn { aarch32 = Aarch32Witnesses.itte_insn }

-- Without a decoder of AArch32, the call fails.
not_built :
    amed_decode_insn (record all { has_aarch32 = false }) tables context insn
    ≡ some (context, insn, false)
unfolding amed_decode_insn
not_built = refl

abbrev strings : Strings
strings = record {
  x86 = X86Printing.strings;
  aarch32 = Aarch32Printing.strings;
  aarch64 = Aarch64Printing.strings;
}

abbrev long_context : Context
long_context = record context { architecture = Architecture.x86; machine_mode = MachineMode.mode64 }

printed :
    amed_print_insn all strings [] long_context insn (with_case X86Printing.formatter false)
    ≡ some (X86Printing.text, 22)
unfolding amed_print_insn
printed = X86Printing.printed

amed_print_insn-lower_case_example :
    (amed_print_insn all strings [] long_context insn (with_case X86Printing.formatter true)
      ≡ some (codes "add rax, [rax+rcx*2-8]", 0))
    × (22 ≡ length X86Printing.text)
unfolding lowered tolower
amed_print_insn-lower_case_example =
    amed_print_insn-lower_case all strings [] long_context insn X86Printing.formatter
      X86Printing.text 22 refl refl printed
