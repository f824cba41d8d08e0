-- ===== src/Aarch64/Examples/Fixture.antt =====
-- A database of one A64 instruction, ADD of a 64-bit register and an immediate, and a list of two
-- vector registers.
use amed.Base.{
  ℕ, ◌≡◌, ◌≤◌, arith, true, false, ◌&&◌, none, some, List, [], ◌∷◌, leb, ◌==◌, if◌then◌else◌,
  if-cases,
}
use amed.Base.Int.{pos}
use amed.Utils.Datatype.{Datatype}
use amed.Aarch64.Names.{Symbol, Vdt, register_v0, register_v31}
use amed.Aarch64.Database.{
  EnumType, Piece, Any, ImmReg, ListNode, Node, Encoding, Template, Database,
}
use amed.Aarch64.State.{ArgumentType, Argument, Insn, Internal}
use amed.Aarch64.Frame.Nodes.{AllReadable, IsReadable}
use amed.Aarch64.Arguments.Lists.{list_bounds}
use amed.Aarch64.Arguments.Lists.Consecutive.{IsClass}

abbrev rd : Any
rd = record {
  enum_type = EnumType.other;
  symbol = Symbol.gpr64;
  datatype = Datatype.ix;
  read = false;
  write = true;
  has_encodedin = true;
  sp = true;
  pair = false;
  even = false;
  zeroing = false;
  merging = false;
  signpos = false;
  encodedin = 0;
  table = none;
  value = 0;
  scale = 0;
}

abbrev rn : Any
rn = record rd { read = true; write = false; encodedin = 1 }

abbrev imm12 : Any
imm12 = record rd { symbol = Symbol.other; sp = false; encodedin = 2 }

-- `{ Vd.16B, V(d+1).16B }`.
abbrev pub list_node : ListNode
list_node = record {
  base =
      ImmReg.vreg (record {
        reg = record rd { symbol = Symbol.vecreg; sp = false };
        vdt = Vdt.v16b;
        idx = rd;
      });
  count = 2;
}

abbrev nodes : List Node
nodes = Node.reg rd ∷ Node.reg rn ∷ Node.imm imm12 ∷ []

abbrev add_encoding : Encoding
add_encoding = record {
  opcode = 0x91000000;
  mask = 0xffc00000;
  iclass = 1;
  cclass = 1;
  first_template = 0;
  template_count = 1;
  aliases = 0;
  has_alias = false;
  datasize = 2;
  categories = 2 ∷ 2 ∷ [];
  exceptions = 0 ∷ [];
  iflags = 0;
  page = 1;
}

abbrev add_template : Template
add_template = record {
  iform = 1;
  arguments = 0;
  bitdiffs = 0;
  asmonly = false;
  cond = 0;
  arch_variant = 0;
  extensions = 0 ∷ [];
}

abbrev piece_of : ℕ → Piece
piece_of i =
    if i == 0
    then record { mask = 0x1f; size = 5 }
    else if i == 1
    then record { mask = 0x3e0; size = 5 }
    else record { mask = 0x3ffc00; size = 12 }

abbrev kind_of : ℕ → Symbol
kind_of r = if leb register_v0 r && leb r register_v31 then Symbol.vecreg else Symbol.gpr64

abbrev pub database : Database
database = record {
  lookup = λ opcode. 1;
  alias_condition = λ opcode i. false;
  encodings = λ i. add_encoding;
  templates = λ i. add_template;
  bitdiffs = λ i. record { opcode = 0; mask = 0 };
  encodedins = λ i. piece_of i ∷ [];
  arguments = λ i. nodes;
  aliases = λ i. [];
  reginfo = λ r. record { kind = kind_of r; size = 64; is_even = true; is_last = false };
  iform2mnem = λ i. i;
  iflags = λ i. 0;
}

-- No immediate is extended by its sign.
pub readable : (i : ℕ) → AllReadable database (database.arguments i)
unfolding IsReadable
readable i = (tt, (tt, ((λ e. cc), tt)))

pub classes : IsClass database
classes r first last =
    if-cases
      (λ (symbol : Symbol). list_bounds symbol ≡ some (first, last) → (first ≤ r) × (r ≤ last))
      (leb register_v0 r && leb r register_v31) (λ inside h. ground (arith, inside, h))
      (λ _ h. absurd cc)

abbrev pub empty_argument : Argument
empty_argument = record {
  kind = ArgumentType.none;
  datatype = Datatype.none;
  number_of_elements = 0;
  size = 0;
  is_vector = false;
  is_representable = false;
  read = false;
  write = false;
  has_shifter = false;
  zeroing = false;
  merging = false;
  has_index = false;
  is_post_indexed = false;
  is_pre_indexed = false;
  print_datatype = false;
  print_shifter = false;
  print_amount_as_vl = false;
  reg_value = 0;
  reg_index = 0;
  list_registers = [];
  list_count = 0;
  list_index = 0;
  mem = record {
    address_size = 0;
    base = 0;
    regoff = 0;
    immoff_datatype = Datatype.none;
    immoff_value = 0;
  };
  imm = 0;
  fpimm = pos 0;
  token = 0;
  sysreg = record { op0 = 0; op1 = 0; op2 = 0; cn = 0; cm = 0 };
  shifter = record { kind = 0; has_amount = false; amount = 0 };
}

abbrev pub empty_insn : Insn
empty_insn = record {
  iform = 0;
  mnemonic = 0;
  page = 0;
  iclass = 0;
  cclass = 0;
  encoding = 0;
  arch_variant = 0;
  length = 0;
  is_undefined = false;
  is_unpredictable = false;
  is_alias = false;
  is_vector = false;
  is_predicated = false;
  is_constructive = false;
  is_destructive = false;
  may_branch = false;
  may_load = false;
  may_store = false;
  is_running_conditionally = false;
  categories = [];
  exceptions = [];
  extensions = [];
  argument_count = 0;
  arguments = λ i. empty_argument;
  condition = 0;
  pstate = 0;
}

-- `{ V31.16B, V0.16B }` when the list is decoded.
abbrev pub before : Internal
before = record {
  insn = empty_insn;
  vector_size = 128;
  encoding = add_encoding;
  iencoding = 1;
  ptemplate = add_template;
  opcode = 31;
  datasize = 64;
  lsb = 0;
  dst_reg = 0;
  has_reg = false;
  stack_argument = empty_argument;
}
