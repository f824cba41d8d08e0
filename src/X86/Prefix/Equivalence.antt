-- ===== src/X86/Prefix/Equivalence.antt =====
-- source/x86/decoder.c: the short form of a VEX prefix against the long form.
use amed.Base.{
  ℕ, ◌+◌, ◌*◌, ◌^◌, ◌<◌, ◌≡◌, refl, ◌⊎◌, inl, inr, arith, Bool, true, false, flag, field, bit,
}
use amed.X86.State.{Internal}
use amed.X86.Setters.{
  set_pp_field, set_ll_field, set_mmmmm_field, set_w_field, set_rxb_fields, set_vvvv_field,
  set_enc_field,
}
use amed.X86.Prefix.{vex2_fields, vex3_fields}

module _ (r : Bool) (v : ℕ) (h : v < 2 ^ 7) where
  abbrev byte1 : ℕ
  byte1 = bit r * 2 ^ 7 + v

  pp_same : field 0 2 byte1 ≡ field 0 2 v
  pp_same = elim r [ true ↦ grind arith | false ↦ grind arith ]

  ll_same : field 2 1 byte1 ≡ field 2 1 v
  ll_same = elim r [ true ↦ grind arith | false ↦ grind arith ]

  vvvv_same : field 3 4 byte1 ≡ field 3 4 v
  vvvv_same = elim r [ true ↦ grind arith | false ↦ grind arith ]

  r_same : flag 7 byte1 ≡ r
  r_same = elim r [ true ↦ ground arith | false ↦ ground arith ]

  w_clear : flag 7 v ≡ false
  w_clear = ground arith

bit_cases : (v : ℕ) → (field 2 1 v ≡ 0) ⊎ (field 2 1 v ≡ 1)
bit_cases v = grind arith

long_r : (r : Bool) → flag 7 (bit r * 2 ^ 7 + 2 ^ 6 + 2 ^ 5 + 1) ≡ r
long_r true = refl
long_r false = refl

long_x : (r : Bool) → flag 6 (bit r * 2 ^ 7 + 2 ^ 6 + 2 ^ 5 + 1) ≡ true
long_x true = refl
long_x false = refl

long_b : (r : Bool) → flag 5 (bit r * 2 ^ 7 + 2 ^ 6 + 2 ^ 5 + 1) ≡ true
long_b true = refl
long_b false = refl

-- Without a REX prefix before it (`w`, `x` and `b` clear), the VEX2 prefix with the bit `r` and the 7 bits `v`
-- sets every field as the VEX3 prefix does that has the same `r` and `v`, X and B inverted, the map
-- 1 and W clear.
pub vex2_fields-vex3_fields :
    (s : Internal) (r : Bool) (v : ℕ)
    → v < 2 ^ 7
    → s.diagram.w ≡ false
    → s.diagram.x ≡ false
    → s.diagram.b ≡ false
    → vex2_fields s (bit r * 2 ^ 7 + v)
      ≡ vex3_fields (set_mmmmm_field s 1).0 (bit r * 2 ^ 7 + 2 ^ 6 + 2 ^ 5 + 1) v
unfolding vex2_fields vex3_fields set_mmmmm_field set_w_field set_pp_field set_ll_field
    set_rxb_fields set_vvvv_field set_enc_field
vex2_fields-vex3_fields s r v h w x b = rw (pp_same r v h) (
    rw (ll_same r v h) (
      rw (vvvv_same r v h) (
        rw (r_same r v h) (
          rw (w_clear r v h) (
            rw (long_r r) (
              rw (long_x r) (
                rw (long_b r) (elim (bit_cases v) [
                  | inl e ↦ rw e (rw w (rw x (rw b refl)))
                  | inr e ↦ rw e (rw w (rw x (rw b refl)))
                ]))))))))
