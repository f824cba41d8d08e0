-- ===== src/X86/Arguments/Slots.antt =====
-- The array of arguments, and the start of `decode_node`, which clears the flags of one.
use amed.Base.{ℕ, true, false, if◌then◌else◌, ◌==◌}
use amed.X86.State.{ArgumentType, Argument, Internal}

abbrev pub argument_at : Internal → ℕ → Argument
argument_at s i = s.insn.arguments i

abbrev pub set_argument : Internal → ℕ → Argument → Internal
set_argument s i a = record s {
  insn = record (s.insn) { arguments = λ j. if j == i then a else s.insn.arguments j };
}

-- The data type, the size and the values keep what stood there.
unfoldable pub clear_argument : Argument → Argument
clear_argument a = record a {
  kind = ArgumentType.none;
  is_suppressed = false;
  is_representable = true;
  read = false;
  write = false;
  conditional_reading = false;
  conditional_writing = false;
  zeroing = false;
  merging = false;
  has_index = false;
  print_shifter = false;
  print_index = false;
  print_segment = false;
  print_broadcasting = false;
  print_size = false;
}
