-- ===== src/Aarch32/State.antt =====
-- What the AArch32 decoder writes: the parts of `amed_argument`, `amed_insn` and `amed_context` of
-- include/amed.h that it touches, and its own `aarch32_internal`.
use amed.Base.{ℕ, Bool, List, ◌||◌}
use amed.Base.Int.{ℤ}
use amed.Utils.Datatype.{Datatype}
use amed.Aarch32.Names.{ItOp}
use amed.Aarch32.Database.{Encoding, Template}

pub data ArgumentType : Type 0 where
  none register memory immediate label list endian aif condition cspace pspace barrier :
      ArgumentType
  sync_op : ArgumentType

-- `amed_argument_shifter`; `amount` is also the number of the register, `reg`.
pub record ArgumentShifter : Type 0 where
  pub kind : ℕ
  pub is_visible : Bool
  pub has_amount : Bool
  pub has_register : Bool
  pub amount : ℕ

-- `amed_argument_memory`; `immoff_value` is a pattern of 64 bits. `vdatatype` and `broadcasting` share
-- their bytes with the register or the immediate of the offset, and nothing reads them.
pub record Memory : Type 0 where
  pub address_size : ℕ
  pub alignement : ℕ
  pub base : ℕ
  pub regoff : ℕ
  pub immoff_datatype : Datatype
  pub immoff_value : ℕ

-- `amed_argument`. The members of its union are fields of their own, since but for decode_arg_sysreg
-- no argument is read through another member than it was written. `kind` is the source's `type`, `imm` is the pattern of
-- 64 bits of the immediate, and `fpimm` is the `f64`, in 128ths. `list_registers` are the first
-- `list_count` registers of the list.
pub record Argument : Type 0 where
  pub kind : ArgumentType
  pub datatype : Datatype
  pub number_of_elements : ℕ
  pub size : ℕ
  pub is_vector : Bool
  pub is_representable : Bool
  pub read : Bool
  pub write : Bool
  pub has_shifter : Bool
  pub write_back : Bool
  pub has_index : Bool
  pub is_adding : Bool
  pub is_post_indexed : Bool
  pub is_pre_indexed : Bool
  pub print_datatype : Bool
  pub print_shifter : Bool
  pub reg_value : ℕ
  pub reg_index : ℕ
  pub list_registers : List ℕ
  pub list_count : ℕ
  pub list_index : ℕ
  pub mem : Memory
  pub imm : ℕ
  pub fpimm : ℤ
  pub aif : ℕ
  pub token : ℕ
  pub shifter : ArgumentShifter

-- `amed_insn`, from `condition` on its AArch32 part.
pub record Insn : Type 0 where
  pub iform : ℕ
  pub mnemonic : ℕ
  pub page : ℕ
  pub iclass : ℕ
  pub cclass : ℕ
  pub encoding : ℕ
  pub arch_variant : ℕ
  pub length : ℕ
  pub is_undefined : Bool
  pub is_deprecated : Bool
  pub is_unpredictable : Bool
  pub is_alias : Bool
  pub is_vector : Bool
  pub is_atomic : Bool
  pub is_acquiring : Bool
  pub is_releasing : Bool
  pub is_constructive : Bool
  pub is_destructive : Bool
  pub may_branch : Bool
  pub may_load : Bool
  pub may_store : Bool
  pub is_running_conditionally : Bool
  pub categories : List ℕ
  pub exceptions : List ℕ
  pub extensions : List ℕ
  pub argument_count : ℕ
  pub arguments : ℕ → Argument
  pub condition : ℕ
  pub pstate : ℕ
  pub it_op : ItOp
  pub it_insn_count : ℕ
  pub show_qualifier : Bool

-- `amed_it_block`, with its four conditions.
pub record ItBlock : Type 0 where
  pub count : ℕ
  pub index : ℕ
  pub is_in : Bool
  pub is_out : Bool
  pub conditions : List ℕ

-- `aarch32_internal`, with the insn that it points to and the IT block of its context. `iencoding` is
-- the place of the encoding in its table.
pub record Internal : Type 0 where
  pub itblock : ItBlock
  pub insn : Insn
  pub encoding : Encoding
  pub iencoding : ℕ
  pub ptemplate : Template
  pub opcode : ℕ
  pub lsb : ℕ
  pub dst_reg : ℕ
  pub is_arm : Bool
  pub has_reg : Bool

-- What decoding an argument ends in: its result with the state, or a step that C leaves undefined.
-- What follows is done only where the argument is decoded.
pub data Result : Type 0 where
  decoded : Internal → Argument → Result
  failed : Internal → Argument → Result
  undefined : Result

infixl 5 ◌andthen◌
abbrev pub ◌andthen◌ : Result → (Internal → Argument → Result) → Result
decoded s a andthen k = k s a
failed s a andthen k = failed s a
undefined andthen k = undefined

abbrev pub unpredictable : Internal → Bool → Internal
unpredictable s b = record s {
  insn = record (s.insn) { is_unpredictable = s.insn.is_unpredictable || b };
}
