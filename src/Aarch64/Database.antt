-- ===== src/Aarch64/Database.antt =====
-- source/aarch64/db.h: the records of the generated tables, and the tables that decoder.c reads.
use amed.Base.{ℕ, Bool, Option, List}
use amed.Utils.Datatype.{Datatype}
use amed.Aarch64.Names.{Symbol, Vdt}

-- `amed_db_encodedin`: one piece of a field that is spread over the opcode.
pub record Piece : Type 0 where
  pub mask : ℕ
  pub size : ℕ

-- `amed_db_tv`, without the items that call another table. `value` is also the `shift`.
pub record Tv : Type 0 where
  pub value : ℕ
  pub amount : ℕ
  pub encoding : ℕ
  pub is_representable : Bool

-- The items of an `amed_db_table`; `call` is an item with `has_table`.
pub data Items : Type 0 where
  end : Items
  entry : Tv → Items → Items
  call : Items → Items → Items

-- The types of the nodes that decode_arg_enum tells apart, and `other`.
pub data EnumType : Type 0 where
  at_op dc_op ic_op tlbi_op sync_op ctx_op prf_op bti_op pstatefield barrier cond : EnumType
  invcond cspace pattern other : EnumType

-- `amed_db_any`. `scale` is also `arg0`, and `value` the pattern of 32 bits.
pub record Any : Type 0 where
  pub enum_type : EnumType
  pub symbol : Symbol
  pub datatype : Datatype
  pub read : Bool
  pub write : Bool
  pub has_encodedin : Bool
  pub sp : Bool
  pub pair : Bool
  pub even : Bool
  pub zeroing : Bool
  pub merging : Bool
  pub signpos : Bool
  pub encodedin : ℕ
  pub table : Option Items
  pub value : ℕ
  pub scale : ℕ

-- `amed_db_ereg` and the types of the same layout.
pub record Ereg : Type 0 where
  pub reg : Any
  pub vdt : Vdt
  pub idx : Any

pub record Shifter : Type 0 where
  pub has_encodedin : Bool
  pub encodedin : ℕ
  pub table : Items
  pub shift : Any
  pub amount : Option Any

-- `amed_db_size`, with fields of 16 bits.
pub record Size : Type 0 where
  pub size : ℕ
  pub esize : ℕ

-- The nodes that decode_anynymous_immreg takes.
pub data ImmReg : Type 0 where
  reg : Any → ImmReg
  ereg : Ereg → ImmReg
  vreg : Ereg → ImmReg
  regsh : Any → Shifter → ImmReg
  vregsh : Ereg → Shifter → ImmReg
  imm : Any → ImmReg
  immsh : Any → Shifter → ImmReg
  other : ImmReg

pub record MemNode : Type 0 where
  pub datatype : Datatype
  pub read : Bool
  pub write : Bool
  pub post_indexed : Bool
  pub pre_indexed : Bool
  pub base : ImmReg
  pub regoff : Option ImmReg
  pub size : Option Size

-- `amed_db_vlist`, with the `value16` of its count.
pub record ListNode : Type 0 where
  pub base : ImmReg
  pub count : ℕ

-- An argument of a template, by the type that it starts with.
pub data Node : Type 0 where
  enum : Any → Node
  invcond : Any → Node
  sysreg : Any → Node
  reg : Any → Node
  regsh : Any → Shifter → Node
  vreg : Ereg → Node
  ereg : Ereg → Node
  preg : Any → Node
  vlist : ListNode → Node
  elist : ListNode → Node
  patternsh : Any → Shifter → Node
  fpimm : Any → Node
  imm : Any → Node
  immsh : Any → Shifter → Node
  label : Any → Node
  mem : MemNode → Node
  other : Node

-- `amed_db_encoding`; `aliases` is also the `aliascond`, and `datasize` has 2 bits.
pub record Encoding : Type 0 where
  pub opcode : ℕ
  pub mask : ℕ
  pub iclass : ℕ
  pub cclass : ℕ
  pub first_template : ℕ
  pub template_count : ℕ
  pub aliases : ℕ
  pub has_alias : Bool
  pub datasize : ℕ
  pub categories : List ℕ
  pub exceptions : List ℕ
  pub iflags : ℕ
  pub page : ℕ

pub record Template : Type 0 where
  pub iform : ℕ
  pub arguments : ℕ
  pub bitdiffs : ℕ
  pub asmonly : Bool
  pub cond : ℕ
  pub arch_variant : ℕ
  pub extensions : List ℕ

pub record Bitdiff : Type 0 where
  pub opcode : ℕ
  pub mask : ℕ

-- `amed_db_reginfo`.
pub record RegInfo : Type 0 where
  pub kind : Symbol
  pub size : ℕ
  pub is_even : Bool
  pub is_last : Bool

-- The generated tables. A run of pieces, of nodes or of aliases is the list up to its end.
-- `lookup` is aarch64_lookup_a64, and `alias_condition` is is_alias_condition_ok, which reads the
-- opcode alone.
pub record Database : Type 0 where
  pub lookup : ℕ → ℕ
  pub alias_condition : ℕ → ℕ → Bool
  pub encodings : ℕ → Encoding
  pub templates : ℕ → Template
  pub bitdiffs : ℕ → Bitdiff
  pub encodedins : ℕ → List Piece
  pub arguments : ℕ → List Node
  pub aliases : ℕ → List ℕ
  pub reginfo : ℕ → RegInfo
  pub iform2mnem : ℕ → ℕ
  pub iflags : ℕ → ℕ
