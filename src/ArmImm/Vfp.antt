-- ===== src/ArmImm/Vfp.antt =====
-- The table of `decode_vfp_imm` against the expansion that ARM gives.
use amed.Base.{
  ℕ, ◌+◌, ◌-◌, ◌*◌, ◌%◌, ◌^◌, ◌≤◌, ◌<◌, Bool, true, false, ◌≡◌, ◌↔◌, refl, arith, ◌==◌,
  if◌then◌else◌, field, flag, get_or, all_below_sound,
}
use amed.Base.Int.{ℤ, pos, negsuc}
use amed.ArmImm.{vfpimm_table, decode_vfp_imm}

-- `VFPExpandImm` of the byte `abcdefgh`: the sign is `a`, the mantissa is (16 + efgh) / 16, and
-- the exponent is `cd` + 1 where `b` is clear and `cd` - 3 where it is set. In 128ths.
pub expand_vfp_imm : ℕ → ℤ
expand_vfp_imm x =
    let magnitude =
      if flag 6 x
      then (16 + field 0 4 x) * 2 ^ field 4 2 x
      else (16 + field 0 4 x) * 2 ^ (field 4 2 x + 4) in
    if flag 7 x then negsuc (magnitude - 1) else pos magnitude

abbrev same : ℤ → ℤ → Bool
same (pos a) (pos b) = a == b
same (negsuc a) (negsuc b) = a == b
same _ _ = false

same_eq : (a b : ℤ) → same a b ≡ true → a ≡ b
same_eq (pos a) (pos b) h = ground arith
same_eq (pos a) (negsuc b) h = cc
same_eq (negsuc a) (pos b) h = cc
same_eq (negsuc a) (negsuc b) h = ground arith

table_lem : (x : ℕ) → x < 256 → get_or vfpimm_table x (pos 0) ≡ expand_vfp_imm x
unfolding vfpimm_table expand_vfp_imm
table_lem x h =
    same_eq _ _
      (all_below_sound 256 (λ n. same (get_or vfpimm_table n (pos 0)) (expand_vfp_imm n)) x refl h)

-- For every encoded word the number returned is ARM's expansion of its low byte, and the call
-- succeeds exactly when the word is a byte.
pub decode_vfp_imm_lem :
    (e : ℕ)
    → ((decode_vfp_imm e).1 ≡ expand_vfp_imm (e % 256))
      × (((decode_vfp_imm e).0 ≡ true) ↔ (e ≤ 255))
unfolding decode_vfp_imm
decode_vfp_imm_lem e = (table_lem (e % 256) (omega arith), ground arith)
