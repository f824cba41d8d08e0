-- ===== src/X86/Examples/Fixture.antt =====
-- A database of one instruction, ADD of a register and a register or memory operand, and the bytes
-- of `add rax, [rax + rcx * 2 - 8]`.
use amed.Base.{◌^◌, true, false, none, List, [], ◌∷◌, ◌==◌, if◌then◌else◌}
use amed.Base.Int.{pos}
use amed.Utils.Datatype.{Datatype}
use amed.X86.Symbols.{symbol_gprv, symbol_none, encodedin_reg}
use amed.X86.Database.{RegNode, MemNode, Node, Tuple, Encoding, Template, Database}
use amed.X86.State.{ArgumentType, ShiftType, PrefixFunctionality, Memory, Argument, Insn}

abbrev pub reg_node : RegNode
reg_node = record {
  datatype = Datatype.sx;
  symbol = symbol_gprv;
  read = true;
  write = true;
  conditional_reading = false;
  conditional_writing = false;
  suppressed = false;
  zeroing = false;
  has_encodedin = true;
  value = encodedin_reg;
}

abbrev mem_node : MemNode
mem_node = record {
  datatype = Datatype.sx;
  symbol = symbol_none;
  size = pos 64;
  read = true;
  write = false;
  conditional_reading = false;
  conditional_writing = false;
  suppressed = false;
  has_encodedin = true;
  seg = none;
  base = none;
}

abbrev pub nodes : List Node
nodes = Node.reg reg_node ∷ Node.mem mem_node ∷ []

abbrev pub add_template : Template
add_template = record {
  iform = 1;
  bitdiffs = 0;
  arguments = 0;
  lock = false;
  xacquire = false;
  xrelease = false;
  bound = false;
  rep = false;
  repnz = false;
  repz = false;
  egran = false;
  f64 = false;
  d64 = false;
  tuple = Tuple.none;
}

abbrev add_encoding : Encoding
add_encoding = record {
  iflags = 0;
  isa = 0;
  page = 0;
  categories = 0 ∷ 0 ∷ [];
  exceptions = 0 ∷ [];
  extension = 0;
  has_modrm = true;
  requires_alignment = false;
}

-- The opcode 0x03 finds the encoding 1.
abbrev pub database : Database
database = record {
  lookup = λ op hash. if op == 0x03 then 2 ^ 16 else 0;
  encodings = λ i. if i == 1 then add_encoding else record add_encoding { has_modrm = false };
  templates = λ i. add_template;
  bitdiffs = λ i. record { opcode = 0; mask = 0 };
  arguments = λ i. nodes;
  iform2mnem = λ i. i;
  register_size = λ r. 64;
  iflags = λ i. 0;
}

abbrev pub empty_memory : Memory
empty_memory = record {
  vdatatype = Datatype.none;
  broadcasting_from = 0;
  broadcasting_to = 0;
  address_size = 0;
  alignement = 0;
  segment = 0;
  base = 0;
  regoff = 0;
  immoff_datatype = Datatype.none;
  immoff_value = pos 0;
}

abbrev pub empty_argument : Argument
empty_argument = record {
  kind = ArgumentType.none;
  datatype = Datatype.none;
  number_of_elements = 0;
  size = 0;
  is_suppressed = false;
  is_representable = false;
  read = false;
  write = false;
  conditional_reading = false;
  conditional_writing = false;
  zeroing = false;
  merging = false;
  has_index = false;
  print_shifter = false;
  print_index = false;
  print_segment = false;
  print_broadcasting = false;
  print_size = false;
  mem = empty_memory;
  reg_value = 0;
  reg_index = 0;
  imm = 0;
  token = 0;
  ptr_segment = 0;
  ptr_datatype = Datatype.none;
  ptr_offset = pos 0;
  shifter_type = ShiftType.none;
  shifter_amount = 0;
}

abbrev pub empty_insn : Insn
empty_insn = record {
  iform = 0;
  mnemonic = 0;
  page = 0;
  encoding = 0;
  arch_variant = 0;
  length = 0;
  is_undefined = false;
  is_unpredictable = false;
  is_ugly = false;
  is_vector = false;
  is_predicated = false;
  is_atomic = false;
  is_acquiring = false;
  is_releasing = false;
  is_suppressing_all_exceptions = false;
  is_constructive = false;
  is_destructive = false;
  may_branch = false;
  may_load = false;
  may_store = false;
  categories = [];
  exceptions = [];
  extensions = [];
  argument_count = 0;
  arguments = λ i. empty_argument;
  bytecodes = [];
  iflags = 0;
  prefix_functionality = PrefixFunctionality.none;
}
