-- ===== src/Aarch64/Names.antt =====
-- The numbers of include/amed/aarch64/include/enums.inc and include/amed/shared/enums.inc that the
-- A64 decoder uses. Registers are numbers, since the decoder adds the encoded number to the first
-- register of its class.
use amed.Base.{ℕ}

abbrev pub register_none : ℕ
register_none = 0

abbrev pub register_w0 : ℕ
register_w0 = 1

abbrev pub register_x0 : ℕ
register_x0 = 34

abbrev pub register_b0 : ℕ
register_b0 = 68

abbrev pub register_h0 : ℕ
register_h0 = 100

abbrev pub register_s0 : ℕ
register_s0 = 132

abbrev pub register_d0 : ℕ
register_d0 = 164

abbrev pub register_q0 : ℕ
register_q0 = 196

abbrev pub register_v0 : ℕ
register_v0 = 228

abbrev pub register_v31 : ℕ
register_v31 = 259

abbrev pub register_p0 : ℕ
register_p0 = 260

abbrev pub register_z0 : ℕ
register_z0 = 276

abbrev pub register_z31 : ℕ
register_z31 = 307

abbrev pub mnemonic_bfc : ℕ
mnemonic_bfc = 376

abbrev pub mnemonic_bfi : ℕ
mnemonic_bfi = 377

abbrev pub mnemonic_bfxil : ℕ
mnemonic_bfxil = 378

abbrev pub mnemonic_sbfiz : ℕ
mnemonic_sbfiz = 405

abbrev pub mnemonic_sbfx : ℕ
mnemonic_sbfx = 406

abbrev pub mnemonic_ubfiz : ℕ
mnemonic_ubfiz = 462

abbrev pub mnemonic_ubfx : ℕ
mnemonic_ubfx = 463

abbrev pub shift_none : ℕ
shift_none = 0

abbrev pub shift_lsl : ℕ
shift_lsl = 2

abbrev pub shift_mul : ℕ
shift_mul = 7

abbrev pub shift_sxtb : ℕ
shift_sxtb = 8

abbrev pub shift_uxtx : ℕ
shift_uxtx = 15

abbrev pub condition_eq : ℕ
condition_eq = 1

abbrev pub condition_al : ℕ
condition_al = 15

abbrev pub condition_cond : ℕ
condition_cond = 1

abbrev pub cspace_c0 : ℕ
cspace_c0 = 1

abbrev pub category_branch : ℕ
category_branch = 7

-- The symbols of a node that the decoder tells apart, and `other` for the rest.
pub data Symbol : Type 0 where
  gpr32 gpr64 simd8 simd16 simd32 simd64 simd128 vecreg svereg prdreg : Symbol
  wide_imm_inverted wide_imm_alias advimm vfpimm aimm : Symbol
  shift_left fbits_right shift_right lsb width other : Symbol

-- `amed_aarch64_vdt`.
pub data Vdt : Type 0 where
  none v16b v1d v1q v2d v2h v2s v4b v4h v4s v8b v8h vb vd vh vq vs : Vdt
