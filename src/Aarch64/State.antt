-- ===== src/Aarch64/State.antt =====
-- What the A64 decoder writes: the parts of `amed_argument` and `amed_insn` of include/amed.h that
-- it touches, and its own `aarch64_internal`.
use amed.Base.{ℕ, Bool, List}
use amed.Base.Int.{ℤ}
use amed.Utils.Datatype.{Datatype}
use amed.Aarch64.Database.{Encoding, Template}

pub data ArgumentType : Type 0 where
  none register sysreg_encoding memory immediate label list condition cspace pspace : ArgumentType
  barrier pattern at_op dc_op ic_op tlbi_op prf_op sync_op ctx_op bti_op pstatefield : ArgumentType

-- `amed_argument_shifter`.
pub record ArgumentShifter : Type 0 where
  pub kind : ℕ
  pub has_amount : Bool
  pub amount : ℕ

-- `amed_argument_memory`; `immoff_value` is a pattern of 64 bits.
pub record Memory : Type 0 where
  pub address_size : ℕ
  pub base : ℕ
  pub regoff : ℕ
  pub immoff_datatype : Datatype
  pub immoff_value : ℕ

-- `amed_aarch64_sysreg_encoding`.
pub record Sysreg : Type 0 where
  pub op0 : ℕ
  pub op1 : ℕ
  pub op2 : ℕ
  pub cn : ℕ
  pub cm : ℕ

-- `amed_argument`. The members of its union are fields of their own, since no argument is written
-- through one member and read through another. `kind` is the source's `type`, `imm` is the pattern
-- of 64 bits of the immediate, and `fpimm` is the `f64`, in 128ths. `list_registers` are the first
-- `list_count` registers of the list.
pub record Argument : Type 0 where
  pub kind : ArgumentType
  pub datatype : Datatype
  pub number_of_elements : ℕ
  pub size : ℕ
  pub is_vector : Bool
  pub is_representable : Bool
  pub read : Bool
  pub write : Bool
  pub has_shifter : Bool
  pub zeroing : Bool
  pub merging : Bool
  pub has_index : Bool
  pub is_post_indexed : Bool
  pub is_pre_indexed : Bool
  pub print_datatype : Bool
  pub print_shifter : Bool
  pub print_amount_as_vl : Bool
  pub reg_value : ℕ
  pub reg_index : ℕ
  pub list_registers : List ℕ
  pub list_count : ℕ
  pub list_index : ℕ
  pub mem : Memory
  pub imm : ℕ
  pub fpimm : ℤ
  pub token : ℕ
  pub sysreg : Sysreg
  pub shifter : ArgumentShifter

-- `amed_insn`.
pub record Insn : Type 0 where
  pub iform : ℕ
  pub mnemonic : ℕ
  pub page : ℕ
  pub iclass : ℕ
  pub cclass : ℕ
  pub encoding : ℕ
  pub arch_variant : ℕ
  pub length : ℕ
  pub is_undefined : Bool
  pub is_unpredictable : Bool
  pub is_alias : Bool
  pub is_vector : Bool
  pub is_predicated : Bool
  pub is_constructive : Bool
  pub is_destructive : Bool
  pub may_branch : Bool
  pub may_load : Bool
  pub may_store : Bool
  pub is_running_conditionally : Bool
  pub categories : List ℕ
  pub exceptions : List ℕ
  pub extensions : List ℕ
  pub argument_count : ℕ
  pub arguments : ℕ → Argument
  pub condition : ℕ
  pub pstate : ℕ

-- `aarch64_internal`, with the insn that it points to and the vector size of its context.
-- `iencoding` is the place of the encoding in its table, and `stack_argument` what the local
-- argument of decode_arg_mem holds before it is written.
pub record Internal : Type 0 where
  pub insn : Insn
  pub vector_size : ℕ
  pub encoding : Encoding
  pub iencoding : ℕ
  pub ptemplate : Template
  pub opcode : ℕ
  pub datasize : ℕ
  pub lsb : ℕ
  pub dst_reg : ℕ
  pub has_reg : Bool
  pub stack_argument : Argument

-- What decoding an argument ends in: its result with the state, or a call of a helper that C leaves
-- undefined. What follows is done only where the argument is decoded.
pub data Result : Type 0 where
  decoded : Internal → Argument → Result
  failed : Internal → Argument → Result
  undefined : Result

infixl 5 ◌andthen◌
abbrev pub ◌andthen◌ : Result → (Internal → Argument → Result) → Result
decoded s a andthen k = k s a
failed s a andthen k = failed s a
undefined andthen k = undefined
