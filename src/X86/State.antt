-- ===== src/X86/State.antt =====
-- What the x86 decoder writes: the parts of `amed_argument` and `amed_insn` of include/amed.h that
-- it touches, and its own `x86_internal`.
use amed.Base.{ℕ, Bool, Option, List}
use amed.Base.Int.{ℤ}
use amed.Utils.Datatype.{Datatype}
use amed.X86.Names.{BytecodeType}
use amed.X86.Diagram.{Diagram}
use amed.X86.Database.{Encoding, Template}

pub data ArgumentType : Type 0 where
  none register memory address ptr immediate label condition sae evh rounding : ArgumentType

pub data ShiftType : Type 0 where
  none mul : ShiftType

pub data PrefixFunctionality : Type 0 where
  none rep repz repnz xacquire xrelease bnd : PrefixFunctionality

-- `amed_argument_memory`.
pub record Memory : Type 0 where
  pub vdatatype : Datatype
  pub broadcasting_from : ℕ
  pub broadcasting_to : ℕ
  pub address_size : ℕ
  pub alignement : ℕ
  pub segment : ℕ
  pub base : ℕ
  pub regoff : ℕ
  pub immoff_datatype : Datatype
  pub immoff_value : ℤ

-- `amed_argument`. The members of its union are fields of their own, since no argument is written
-- through one member and read through another. `kind` is the source's `type`, and `imm` is the
-- 64-bit pattern of the immediate.
pub record Argument : Type 0 where
  pub kind : ArgumentType
  pub datatype : Datatype
  pub number_of_elements : ℕ
  pub size : ℕ
  pub is_suppressed : Bool
  pub is_representable : Bool
  pub read : Bool
  pub write : Bool
  pub conditional_reading : Bool
  pub conditional_writing : Bool
  pub zeroing : Bool
  pub merging : Bool
  pub has_index : Bool
  pub print_shifter : Bool
  pub print_index : Bool
  pub print_segment : Bool
  pub print_broadcasting : Bool
  pub print_size : Bool
  pub mem : Memory
  pub reg_value : ℕ
  pub reg_index : ℕ
  pub imm : ℕ
  pub token : ℕ
  pub ptr_segment : ℕ
  pub ptr_datatype : Datatype
  pub ptr_offset : ℤ
  pub shifter_type : ShiftType
  pub shifter_amount : ℕ

-- `amed_x86_bytecode`: `bytes` are the first `length` bytes of its union, in memory order.
pub record Bytecode : Type 0 where
  pub kind : BytecodeType
  pub length : ℕ
  pub bytes : List ℕ

-- `amed_insn`. `bytecodes` are the first `bytecode_count` entries of the array.
pub record Insn : Type 0 where
  pub iform : ℕ
  pub mnemonic : ℕ
  pub page : ℕ
  pub encoding : ℕ
  pub arch_variant : ℕ
  pub length : ℕ
  pub is_undefined : Bool
  pub is_unpredictable : Bool
  pub is_ugly : Bool
  pub is_vector : Bool
  pub is_predicated : Bool
  pub is_atomic : Bool
  pub is_acquiring : Bool
  pub is_releasing : Bool
  pub is_suppressing_all_exceptions : Bool
  pub is_constructive : Bool
  pub is_destructive : Bool
  pub may_branch : Bool
  pub may_load : Bool
  pub may_store : Bool
  pub categories : List ℕ
  pub exceptions : List ℕ
  pub extensions : List ℕ
  pub argument_count : ℕ
  pub arguments : ℕ → Argument
  pub bytecodes : List Bytecode
  pub iflags : ℕ
  pub prefix_functionality : PrefixFunctionality

-- `x86_internal`, with the insn that it points to. `address` is the memory from the address to
-- decode at; `iencoding` is the place of the encoding in its table; `vreg`, `vmem` and `src_reg` point into the arguments.
pub record Internal : Type 0 where
  pub insn : Insn
  pub iencoding : ℕ
  pub encoding : Encoding
  pub ptemplate : Template
  pub vreg : Option ℕ
  pub vmem : Option ℕ
  pub src_reg : Option ℕ
  pub diagram : Diagram
  pub address : ℕ → ℕ
  pub pc : ℕ
  pub nb : ℕ
  pub vfpc : ℕ
  pub mapidx : ℕ
  pub segment : ℕ
  pub last_f_prefix : ℕ
  pub base_ip : ℕ
  pub disp_datatype : Datatype
  pub has_base : Bool
  pub has_index : Bool
  pub uses_compressed_disp : Bool
