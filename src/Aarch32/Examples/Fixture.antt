-- ===== src/Aarch32/Examples/Fixture.antt =====
-- Two words of the tables of the AArch32 decoder: `add rd, rn, rm` of 16 bits, and IT.
use amed.Base.{ℕ, Bool, true, false, none, [], ◌∷◌, ◌==◌, ltb, if◌then◌else◌}
use amed.Base.Int.{pos}
use amed.Utils.Datatype.{Datatype}
use amed.Aarch32.Names.{Symbol, ItOp, iform_it}
use amed.Aarch32.Database.{EnumType, Any, Node, Encoding, Execution, Template, Database}
use amed.Aarch32.State.{ArgumentType, Argument, Insn, ItBlock, Internal}

abbrev pub empty_argument : Argument
empty_argument = record {
  kind = ArgumentType.none;
  datatype = Datatype.none;
  number_of_elements = 0;
  size = 0;
  is_vector = false;
  is_representable = false;
  read = false;
  write = false;
  has_shifter = false;
  write_back = false;
  has_index = false;
  is_adding = false;
  is_post_indexed = false;
  is_pre_indexed = false;
  print_datatype = false;
  print_shifter = false;
  reg_value = 0;
  reg_index = 0;
  list_registers = [];
  list_count = 0;
  list_index = 0;
  mem = record {
    address_size = 0;
    alignement = 0;
    base = 0;
    regoff = 0;
    immoff_datatype = Datatype.none;
    immoff_value = 0;
  };
  imm = 0;
  fpimm = pos 0;
  aif = 0;
  token = 0;
  shifter = record {
    kind = 0;
    is_visible = false;
    has_amount = false;
    has_register = false;
    amount = 0;
  };
}

abbrev pub empty_insn : Insn
empty_insn = record {
  iform = 0;
  mnemonic = 0;
  page = 0;
  iclass = 0;
  cclass = 0;
  encoding = 0;
  arch_variant = 0;
  length = 0;
  is_undefined = false;
  is_deprecated = false;
  is_unpredictable = false;
  is_alias = false;
  is_vector = false;
  is_atomic = false;
  is_acquiring = false;
  is_releasing = false;
  is_constructive = false;
  is_destructive = false;
  may_branch = false;
  may_load = false;
  may_store = false;
  is_running_conditionally = false;
  categories = [];
  exceptions = [];
  extensions = [];
  argument_count = 0;
  arguments = λ _. empty_argument;
  condition = 0;
  pstate = 0;
  it_op = ItOp.none;
  it_insn_count = 0;
  show_qualifier = false;
}

abbrev pub no_block : ItBlock
no_block = record {
  count = 0;
  index = 0;
  is_in = false;
  is_out = false;
  conditions = 0 ∷ 0 ∷ 0 ∷ 0 ∷ [];
}

abbrev pub add_encoding : Encoding
add_encoding = record {
  opcode = 0x1800;
  mask = 0xfe00;
  iclass = 0;
  cclass = 0;
  first_template = 0;
  template_count = 1;
  aliases = 0;
  has_alias = false;
  categories = 0 ∷ 0 ∷ 0 ∷ 0 ∷ [];
  exceptions = [];
  iflags = 0;
  page = 0;
}

abbrev pub it_encoding : Encoding
it_encoding = record add_encoding { opcode = 0xbf00; mask = 0xff00; first_template = 1 }

abbrev pub add_template : Template
add_template = record {
  iform = 7;
  arguments = 0;
  bitdiffs = 0;
  showqlf = false;
  asmonly = false;
  fit = false;
  init = false;
  outit = false;
  cond = Execution.cond;
  arch_variant = 0;
  extensions = [];
}

abbrev pub it_template : Template
it_template = record add_template { iform = iform_it; arguments = 1 }

-- A general register in the field at the place given.
abbrev pub register_node : ℕ → Bool → Any
register_node place write = record {
  enum_type = EnumType.other;
  symbol = Symbol.gpr32;
  datatype = Datatype.none;
  has_encodedin = true;
  read = true;
  write = write;
  dt_required = false;
  pair = false;
  even = false;
  dpc = false;
  upc = false;
  nopc = false;
  nosp = false;
  iwb = false;
  erb = false;
  signpos = false;
  encodedin = place;
  table = none;
  value = 0;
  scale = 0;
}

-- The first condition of an IT instruction.
abbrev pub condition_node : Any
condition_node = record (register_node 2 false) { enum_type = EnumType.cond; symbol = Symbol.other }

-- A list of general registers in the low half of the word.
abbrev pub list_node : Any
list_node = record (register_node 3 true) { symbol = Symbol.other }

-- What the stack holds before a call.
abbrev pub before : Internal
before = record {
  itblock = no_block;
  insn = empty_insn;
  encoding = add_encoding;
  iencoding = 0;
  ptemplate = add_template;
  opcode = 0;
  lsb = 0;
  dst_reg = 0;
  is_arm = false;
  has_reg = false;
}

-- The fields: 0 and 1 are the registers of ADD, 2 the condition of IT, and 3 the low half of a word.
abbrev pub database : Database
database = record {
  lookup_a32 = λ _. 0;
  lookup_t32 = λ _. 0;
  lookup_t16 = λ word. if ltb word 0xbf00 then 0 else 1;
  alias_condition = λ _ _ _. false;
  encodings = λ i. if i == 0 then add_encoding else it_encoding;
  templates = λ i. if i == 0 then add_template else it_template;
  bitdiffs = λ _. record { opcode = 0; mask = 0 };
  encodedins = λ i.
      if i == 0
      then record { mask = 0x7; size = 3 } ∷ []
      else if i == 1
      then record { mask = 0x38; size = 3 } ∷ []
      else if i == 2
      then record { mask = 0xf0; size = 4 } ∷ []
      else record { mask = 0xffff; size = 16 } ∷ [];
  arguments = λ i.
      if i == 0
      then Node.reg (register_node 0 true) ∷ Node.reg (register_node 1 false) ∷ []
      else Node.enum condition_node ∷ [];
  aliases = λ _. [];
  reginfo = λ _. record { datatype = Datatype.u32; size = 32; is_even = false; is_last = false };
  iform2mnem = λ iform. iform;
  iflags = λ _. 0;
}
