-- ===== src/Aarch32/Names.antt =====
-- The numbers of include/amed/aarch32/include/enums.inc and include/amed/shared/enums.inc that the
-- AArch32 decoder uses.
use amed.Base.{ℕ}

abbrev pub register_none : ℕ
register_none = 0

abbrev pub register_r0 : ℕ
register_r0 = 1

abbrev pub register_sp : ℕ
register_sp = 14

abbrev pub register_pc : ℕ
register_pc = 16

abbrev pub register_s0 : ℕ
register_s0 = 17

abbrev pub register_d0 : ℕ
register_d0 = 49

abbrev pub register_q0 : ℕ
register_q0 = 81

abbrev pub register_q16 : ℕ
register_q16 = 97

abbrev pub mnemonic_bfc : ℕ
mnemonic_bfc = 11

abbrev pub mnemonic_bfi : ℕ
mnemonic_bfi = 12

abbrev pub mnemonic_it : ℕ
mnemonic_it = 49

abbrev pub mnemonic_sbfx : ℕ
mnemonic_sbfx = 141

abbrev pub mnemonic_ubfx : ℕ
mnemonic_ubfx = 248

abbrev pub iform_it : ℕ
iform_it = 65

abbrev pub shift_asr : ℕ
shift_asr = 1

abbrev pub shift_lsl : ℕ
shift_lsl = 2

abbrev pub shift_lsr : ℕ
shift_lsr = 3

abbrev pub shift_ror : ℕ
shift_ror = 5

abbrev pub shift_rrx : ℕ
shift_rrx = 6

-- Two more of `amed_arm_condition`, which numbers EQ to AL from 1 to 15.
abbrev pub condition_none : ℕ
condition_none = 0

abbrev pub condition_nv : ℕ
condition_nv = 16

-- `amed_mem_access`.
pub data MemAccess : Type 0 where
  none acquire release lorelease loacquire atomic atomic_release atomic_acquire : MemAccess
  unprivileged : MemAccess

-- The symbols of a node that the decoder tells apart, and `other` for the rest.
pub data Symbol : Type 0 where
  gpr32 simd32 simd64 simd128 wback16 : Symbol
  width lsb aimm timm vfpimm advimm shift_left fbits_right shift_right : Symbol
  plabel nlabel plabela nlabela labelj label other : Symbol

-- `amed_aarch32_it_op`.
pub data ItOp : Type 0 where
  none ttt tt tte t tet te tee ett et ete e eet ee eee : ItOp
