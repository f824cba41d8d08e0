-- ===== src/ArmImm/Examples.antt =====
-- ARM's immediates at concrete encodings.
use amed.Base.{◌≡◌, ◌↔◌, ◌≤◌, ◌%◌, ◌^◌, true, field, flag}
use amed.ArmImm.{decode_vfp_imm, decode_advsimd_imm}
use amed.ArmImm.Vfp.{expand_vfp_imm, decode_vfp_imm_lem}
use amed.ArmImm.Advsimd.{expand_advsimd_imm, IsElement, decode_advsimd_imm_lem}

-- 0x70 is 1.0.
decode_vfp_imm_example :
    ((decode_vfp_imm 0x70).1 ≡ expand_vfp_imm (0x70 % 256))
    × (((decode_vfp_imm 0x70).0 ≡ true) ↔ (0x70 ≤ 255))
decode_vfp_imm_example = decode_vfp_imm_lem 0x70

-- `op` 1 and `cmode` 14, the mask of the eight bytes.
decode_advsimd_imm_example :
    ((decode_advsimd_imm 0x1ea5).0 ≡ true)
    × IsElement
        (decode_advsimd_imm 0x1ea5).1
        (decode_advsimd_imm 0x1ea5).2
        (expand_advsimd_imm (field 8 4 0x1ea5) (flag 12 0x1ea5) (0x1ea5 % 2 ^ 8))
decode_advsimd_imm_example = decode_advsimd_imm_lem 0x1ea5
