-- ===== src/ArmImm/Advsimd.antt =====
-- `decode_advsimd_imm` against `AdvSIMDExpandImm`.
use amed.Base.{
  ℕ, zero, suc, ◌+◌, ◌-◌, ◌*◌, ◌/◌, ◌%◌, ◌^◌, ◌≤◌, ◌<◌, Bool, true, ◌&&◌, ◌≡◌, refl, ap, arith, leb,
  ltb, ◌==◌, if◌then◌else◌, field, flag, bit, all_below, all_below_sound,
}
use amed.Utils.Datatype.{Datatype, get_datatype_size}
use amed.ArmImm.{decode_advsimd_imm}

-- `n` copies of an element of `w` bits.
abbrev pub copies : ℕ → ℕ → ℕ → ℕ
copies zero w x = 0
copies (suc n) w x = x + 2 ^ w * copies n w x

-- The `k`-th bit of `x` as a byte of ones or zeros, for all eight.
abbrev spread : ℕ → ℕ → ℕ
spread zero x = 0
spread (suc n) x = spread n x + bit (flag n x) * 0xff * 2 ^ (8 * n)

-- `AdvSIMDExpandImm(op, cmode, imm8)`, with its replications written out.
pub expand_advsimd_imm : ℕ → Bool → ℕ → ℕ
expand_advsimd_imm cmode op x =
    let sel = cmode / 2 in
    let odd = cmode % 2 == 1 in
    let b = bit (flag 6 x) in
    let sign = bit (flag 7 x) in
    if sel == 0
    then copies 2 32 x
    else if sel == 1
    then copies 2 32 (x * 2 ^ 8)
    else if sel == 2
    then copies 2 32 (x * 2 ^ 16)
    else if sel == 3
    then copies 2 32 (x * 2 ^ 24)
    else if sel == 4
    then copies 4 16 x
    else if sel == 5
    then copies 4 16 (x * 2 ^ 8)
    else if sel == 6
    then copies 2 32 (if odd then x * 2 ^ 16 + 0xffff else x * 2 ^ 8 + 0xff)
    else if odd
    then if op
      then sign * 2 ^ 63 + (1 - b) * 2 ^ 62 + b * 255 * 2 ^ 54 + x % 64 * 2 ^ 48
      else copies 2 32 (sign * 2 ^ 31 + (1 - b) * 2 ^ 30 + b * 31 * 2 ^ 25 + x % 64 * 2 ^ 19)
    else if op
    then spread 8 x
    else copies 8 8 x

-- One element, of the size of the data type, that makes up the expansion.
abbrev pub IsElement : ℕ → Datatype → ℕ → Type 0
IsElement imm dt whole =
    let w = get_datatype_size dt in (8 ≤ w) × (imm < 2 ^ w) × (copies (64 / w) w imm ≡ whole)

abbrev element_test : ℕ → Bool
element_test e =
    let (ok, imm, dt) = decode_advsimd_imm e in
    let w = get_datatype_size dt in
    ok
    && leb 8 w
    && ltb imm (2 ^ w)
    && copies (64 / w) w imm == expand_advsimd_imm (field 8 4 e) (flag 12 e) (e % 2 ^ 8)

element_table : all_below 8192 element_test ≡ true
unfolding get_datatype_size decode_advsimd_imm expand_advsimd_imm
element_table = refl

element_test_lem :
    (e : ℕ)
    → element_test e ≡ true
    → ((decode_advsimd_imm e).0 ≡ true)
      × IsElement
          (decode_advsimd_imm e).1
          (decode_advsimd_imm e).2
          (expand_advsimd_imm (field 8 4 e) (flag 12 e) (e % 2 ^ 8))
element_test_lem e h = ground arith

-- Only the low 13 bits are looked at.
fields_cut :
    (e : ℕ)
    → (field 8 4 (e % 8192) ≡ field 8 4 e)
      × (e % 8192 % 2 ^ 8 ≡ e % 2 ^ 8)
      × (e % 8192 / 2 ^ 12 % 2 ≡ e / 2 ^ 12 % 2)
fields_cut e = omega arith

flag_cut : (e : ℕ) → flag 12 (e % 8192) ≡ flag 12 e
flag_cut e = ap (λ (t : ℕ). t == 1) (fields_cut e).2

decode_cut : (e : ℕ) → decode_advsimd_imm (e % 8192) ≡ decode_advsimd_imm e
unfolding decode_advsimd_imm
decode_cut e = rw ((fields_cut e).0, (fields_cut e).1, flag_cut e)

-- For every encoded word the call succeeds, and the immediate is one element of the size of the
-- data type returned, whose copies through 64 bits are ARM's expansion of `op`, `cmode` and the
-- low byte.
pub decode_advsimd_imm_lem :
    (e : ℕ)
    → ((decode_advsimd_imm e).0 ≡ true)
      × IsElement
          (decode_advsimd_imm e).1
          (decode_advsimd_imm e).2
          (expand_advsimd_imm (field 8 4 e) (flag 12 e) (e % 2 ^ 8))
decode_advsimd_imm_lem e =
    let tested =
      element_test_lem (e % 8192)
        (all_below_sound 8192 element_test (e % 8192) element_table (omega arith)) in
    rw (decode_cut e, (fields_cut e).0, (fields_cut e).1, flag_cut e) at tested
