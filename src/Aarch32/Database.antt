-- ===== src/Aarch32/Database.antt =====
-- source/aarch32/db.h: the records of the generated tables, and the tables that decoder.c reads. The
-- pieces of a field and the bits that tell templates apart are declared as for AArch64.
use amed.Base.{ℕ, Bool, Option, List}
use amed.Utils.Datatype.{Datatype}
use amed.Aarch64.Database.{Piece, Bitdiff}
use amed.Aarch32.Names.{MemAccess, Symbol}

-- `amed_db_tv`, without the items that call another table; `value` is a pattern of 32 bits.
pub record Tv : Type 0 where
  pub value : ℕ
  pub encoding : ℕ
  pub is_representable : Bool

-- The items of an `amed_db_table`; `call` is an item with `has_table`.
pub data Items : Type 0 where
  end : Items
  entry : Tv → Items → Items
  call : Items → Items → Items

-- The types of the nodes that decode_arg_enum tells apart, and `other`.
pub data EnumType : Type 0 where
  cspace pspace cond endian sync_op barrier bnkdreg specreg other : EnumType

-- `amed_db_any`. `value` and `scale`, which is also `arg0`, are patterns of 32 bits.
pub record Any : Type 0 where
  pub enum_type : EnumType
  pub symbol : Symbol
  pub datatype : Datatype
  pub has_encodedin : Bool
  pub read : Bool
  pub write : Bool
  pub dt_required : Bool
  pub pair : Bool
  pub even : Bool
  pub dpc : Bool
  pub upc : Bool
  pub nopc : Bool
  pub nosp : Bool
  pub iwb : Bool
  pub erb : Bool
  pub signpos : Bool
  pub encodedin : ℕ
  pub table : Option Items
  pub value : ℕ
  pub scale : ℕ

-- `amed_db_ereg` and `amed_db_wreg`.
pub record Ereg : Type 0 where
  pub reg : Any
  pub idx : Any

pub record Wreg : Type 0 where
  pub reg : Any
  pub wback : Any

-- The amount of a shifter: none, a register (type RS) or a number.
pub data Amount : Type 0 where
  absent : Amount
  rs : Any → Amount
  amount : Any → Amount

pub record Shifter : Type 0 where
  pub shift : Any
  pub amount : Amount

-- The nodes that decode_anynymous_immreg takes.
pub data ImmReg : Type 0 where
  reg : Any → ImmReg
  vreg : Any → ImmReg
  ereg : Ereg → ImmReg
  regsh : Any → Shifter → ImmReg
  imm : Any → ImmReg
  immsh : Any → Shifter → ImmReg
  other : ImmReg

-- `amed_db_mem`; `size` is the `size` of its `amed_db_size`.
pub record MemNode : Type 0 where
  pub read : Bool
  pub write : Bool
  pub post_indexed : Bool
  pub pre_indexed : Bool
  pub base : ImmReg
  pub align : Option Any
  pub add : Option Any
  pub regoff : Option ImmReg
  pub size : Option ℕ
  pub ldacc : MemAccess
  pub stacc : MemAccess

-- `amed_db_list`; an fslist and an fdlist have a register as their base, and no `inc`.
pub record ListNode : Type 0 where
  pub base : Any
  pub count : Any

pub record VectorListNode : Type 0 where
  pub base : ImmReg
  pub count : Any
  pub inc : Any

-- An argument of a template, by the type that it starts with. `skip` is a node of the type SZ or XYZ.
pub data Node : Type 0 where
  skip : Node
  enum : Any → Node
  sysreg : Any → Node
  reg : Any → Node
  vreg : Any → Node
  ereg : Ereg → Node
  wreg : Wreg → Node
  regsh : Any → Shifter → Node
  glist : Any → Node
  slist : Any → Node
  fslist : ListNode → Node
  fdlist : ListNode → Node
  vlist : VectorListNode → Node
  imm : Any → Node
  label : Any → Node
  mem : MemNode → Node
  iflags : Any → Node
  other : Node

-- `amed_db_encoding`; `aliases` is also the `aliascond`.
pub record Encoding : Type 0 where
  pub opcode : ℕ
  pub mask : ℕ
  pub iclass : ℕ
  pub cclass : ℕ
  pub first_template : ℕ
  pub template_count : ℕ
  pub aliases : ℕ
  pub has_alias : Bool
  pub categories : List ℕ
  pub exceptions : List ℕ
  pub iflags : ℕ
  pub page : ℕ

-- What a template says of conditions: `AMED_ARM_CONDITION_UNCOND` and so on.
pub data Execution : Type 0 where
  uncond cond unp_cond no_nv no_nv_unp_cond must_al must_nv must_cond : Execution

pub record Template : Type 0 where
  pub iform : ℕ
  pub arguments : ℕ
  pub bitdiffs : ℕ
  pub showqlf : Bool
  pub asmonly : Bool
  pub fit : Bool
  pub init : Bool
  pub outit : Bool
  pub cond : Execution
  pub arch_variant : ℕ
  pub extensions : List ℕ

-- `amed_db_reginfo`.
pub record RegInfo : Type 0 where
  pub datatype : Datatype
  pub size : ℕ
  pub is_even : Bool
  pub is_last : Bool

-- The generated tables. A run of pieces, of nodes or of aliases is the list up to its end. The three
-- lookups are aarch32_lookup_a32, _t32 and _t16, and `alias_condition` is is_alias_condition_ok, which
-- reads the opcode and whether the instruction is in an IT block.
pub record Database : Type 0 where
  pub lookup_a32 : ℕ → ℕ
  pub lookup_t32 : ℕ → ℕ
  pub lookup_t16 : ℕ → ℕ
  pub alias_condition : ℕ → Bool → ℕ → Bool
  pub encodings : ℕ → Encoding
  pub templates : ℕ → Template
  pub bitdiffs : ℕ → Bitdiff
  pub encodedins : ℕ → List Piece
  pub arguments : ℕ → List Node
  pub aliases : ℕ → List ℕ
  pub reginfo : ℕ → RegInfo
  pub iform2mnem : ℕ → ℕ
  pub iflags : ℕ → ℕ
