-- ===== src/X86/Database.antt =====
-- The node, encoding and template types of source/x86/db.h, and the generated tables that the
-- decoder looks up (source/x86/include), which the model takes as a parameter.
use amed.Base.{ℕ, Bool, List, Option}
use amed.Base.Int.{ℤ}
use amed.Utils.Datatype.{Datatype}

-- `amed_db_reg`. The union of `encodedin` and `value` is one number.
pub record RegNode : Type 0 where
  pub datatype : Datatype
  pub symbol : ℕ
  pub read : Bool
  pub write : Bool
  pub conditional_reading : Bool
  pub conditional_writing : Bool
  pub suppressed : Bool
  pub zeroing : Bool
  pub has_encodedin : Bool
  pub value : ℕ

-- `amed_db_mem`. A null pointer is `none`; the size is negative for an index into the widths.
pub record MemNode : Type 0 where
  pub datatype : Datatype
  pub symbol : ℕ
  pub size : ℤ
  pub read : Bool
  pub write : Bool
  pub conditional_reading : Bool
  pub conditional_writing : Bool
  pub suppressed : Bool
  pub has_encodedin : Bool
  pub seg : Option RegNode
  pub base : Option RegNode

-- `amed_db_any`, the type of the nodes of immediates.
pub record AnyNode : Type 0 where
  pub datatype : Datatype
  pub symbol : ℕ
  pub size : ℤ
  pub read : Bool
  pub write : Bool
  pub has_encodedin : Bool
  pub value : ℕ

-- `amed_db_swizzle_tv`, a row of the table of a swizzle node.
pub record SwizzleRow : Type 0 where
  pub nelem : ℕ
  pub mdt : Datatype
  pub vdt : Datatype
  pub reserved : Bool
  pub converting : Bool
  pub broadcasting : Bool

-- The node of an argument, by the type in its first byte. `other` is a type that the decoder's
-- `switch` does not name; `ctl` stands for the six types that are decoded as plain immediates,
-- and a swizzle node is told apart by its `swizzle`.
pub data Node : Type 0 where
  reg vreg preg : RegNode → Node
  mem agen mib : MemNode → Node
  imm rel moffs ptr shift rotate ctl cc : AnyNode → Node
  sae evh : Node
  rc : ℕ → Node
  bcst : Node
  sbcst : ℕ → ℕ → Node
  swz_reg : Node
  swz_mem : (ℕ → SwizzleRow) → Node
  other : Node

-- `amed_x86_tuple`.
pub data Tuple : Type 0 where
  none dup fv fvm hv hvm m128 ovm qvm t1f32 t1f64 t1s8 t1s16 t1s t2 t4 t8 : Tuple

pub record Encoding : Type 0 where
  pub iflags : ℕ
  pub isa : ℕ
  pub page : ℕ
  pub categories : List ℕ
  pub exceptions : List ℕ
  pub extension : ℕ
  pub has_modrm : Bool
  pub requires_alignment : Bool

pub record Template : Type 0 where
  pub iform : ℕ
  pub bitdiffs : ℕ
  pub arguments : ℕ
  pub lock : Bool
  pub xacquire : Bool
  pub xrelease : Bool
  pub bound : Bool
  pub rep : Bool
  pub repnz : Bool
  pub repz : Bool
  pub egran : Bool
  pub f64 : Bool
  pub d64 : Bool
  pub tuple : Tuple

pub record Bitdiff : Type 0 where
  pub opcode : ℕ
  pub mask : ℕ

-- The tables by their index; `arguments` gives the nodes up to the null pointer that ends them,
-- and `lookup` is `x86_lookup`, from an opcode index and a hash code.
pub record Database : Type 0 where
  pub lookup : ℕ → ℕ → ℕ
  pub encodings : ℕ → Encoding
  pub templates : ℕ → Template
  pub bitdiffs : ℕ → Bitdiff
  pub arguments : ℕ → List Node
  pub iform2mnem : ℕ → ℕ
  pub register_size : ℕ → ℕ
  pub iflags : ℕ → ℕ
