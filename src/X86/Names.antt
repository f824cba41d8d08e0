-- ===== src/X86/Names.antt =====
-- The numbers of include/amed/x86/include/enums.inc and the enumerations of source/x86/db.h and
-- include/amed.h that the x86 decoder uses. Registers are numbers, since the decoder computes a
-- register by adding an index to the first register of its class.
use amed.Base.{ℕ, ◌*◌}

abbrev pub register_none : ℕ
register_none = 0

abbrev pub register_al : ℕ
register_al = 1

abbrev pub register_bpl : ℕ
register_bpl = 10

abbrev pub register_spl : ℕ
register_spl = 9

abbrev pub register_ax : ℕ
register_ax = 21

abbrev pub register_sp : ℕ
register_sp = 25

abbrev pub register_bp : ℕ
register_bp = 26

abbrev pub register_eax : ℕ
register_eax = 37

abbrev pub register_esp : ℕ
register_esp = 41

abbrev pub register_ebp : ℕ
register_ebp = 42

abbrev pub register_rax : ℕ
register_rax = 53

abbrev pub register_rsp : ℕ
register_rsp = 57

abbrev pub register_rbp : ℕ
register_rbp = 58

abbrev pub register_es : ℕ
register_es = 69

abbrev pub register_cs : ℕ
register_cs = 70

abbrev pub register_ss : ℕ
register_ss = 71

abbrev pub register_ds : ℕ
register_ds = 72

abbrev pub register_fs : ℕ
register_fs = 73

abbrev pub register_gs : ℕ
register_gs = 74

abbrev pub register_st0 : ℕ
register_st0 = 75

abbrev pub register_mm0 : ℕ
register_mm0 = 83

abbrev pub register_xmm0 : ℕ
register_xmm0 = 95

abbrev pub register_ymm0 : ℕ
register_ymm0 = 127

abbrev pub register_zmm0 : ℕ
register_zmm0 = 159

abbrev pub register_k0 : ℕ
register_k0 = 191

abbrev pub register_bnd0 : ℕ
register_bnd0 = 199

abbrev pub register_cr0 : ℕ
register_cr0 = 203

abbrev pub register_dr0 : ℕ
register_dr0 = 219

abbrev pub register_ip : ℕ
register_ip = 236

abbrev pub register_eip : ℕ
register_eip = 240

abbrev pub register_rip : ℕ
register_rip = 243

-- `amed_x86_bytecode_type`.
pub data BytecodeType : Type 0 where
  none opcode map modrm sib disp abs_seg imm prefix rex xop vex2 vex3 evex mvex : BytecodeType

-- `ENCODING_NONE` and so on, the values of `diagram.enc`.
abbrev pub encoding_none : ℕ
encoding_none = 0

abbrev pub encoding_vex : ℕ
encoding_vex = 1

abbrev pub encoding_evex : ℕ
encoding_evex = 2

abbrev pub encoding_mvex : ℕ
encoding_mvex = 3

abbrev pub encoding_xop : ℕ
encoding_xop = 4

-- `MAP_IDX_NONE` and so on: where the opcodes of a map start in the lookup.
abbrev pub map_idx_none : ℕ
map_idx_none = 0

abbrev pub map_idx_0f : ℕ
map_idx_0f = 256 * 1

abbrev pub map_idx_0f0f : ℕ
map_idx_0f0f = 256 * 2

abbrev pub map_idx_0f38 : ℕ
map_idx_0f38 = 256 * 3

abbrev pub map_idx_0f3a : ℕ
map_idx_0f3a = 256 * 4

abbrev pub map_idx_xop8 : ℕ
map_idx_xop8 = 256 * 5

abbrev pub map_idx_xop9 : ℕ
map_idx_xop9 = 256 * 6

abbrev pub map_idx_xopa : ℕ
map_idx_xopa = 256 * 7

-- `last_f_prefix`: 0 is no such prefix.
abbrev pub prefix_f2 : ℕ
prefix_f2 = 1

abbrev pub prefix_f3 : ℕ
prefix_f3 = 2
