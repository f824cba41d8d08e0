-- ===== src/X86/Sizes.antt =====
-- source/x86/decoder.c: `osz` and `asz` in the decoders of the prefixes.
pub mod Entry
use amed.Base.{
  ℕ, zero, suc, ◌+◌, ◌*◌, ◌/◌, ◌≤◌, ◌≡◌, refl, arith, some-cases, if-cases, List, [], ◌∷◌, Bool,
  true, false, not, ◌&&◌, Option, some, none, ◌==◌, leb, length, get_or, field, flag, if◌then◌else◌,
}
use amed.X86.Names.{BytecodeType, map_idx_0f, map_idx_0f0f, map_idx_0f38, map_idx_0f3a}
use amed.X86.State.{Internal}
use amed.X86.Fetch.{peek_byte, peek_bytes, advance_byte, advance, add_bytecode, max_bytecode_count}
use amed.X86.Setters.{
  set_pp_field, set_ll_field, set_mmmmm_field, set_w_field, set_rxb_fields, set_vvvv_field,
  set_enc_field,
}
use amed.X86.Prefix.{
  rex_fields, vex2_fields, vex3_fields, xop_fields, set_vector_fields, mvex_fields, evex_fields,
  decode_rex, decode_vex2, decode_vex3, decode_xop, decode_mvex, decode_evex, decode_mevex, has_rxb,
  is_xop_map, is_mvex,
}
use amed.X86.Legacy.{
  decode_map, add_segment, take_prefix, Round, segment_override, after_rex, prefix_case,
  prefix_round, prefix_loop,
}

-- Both sizes are 0, 1 or 2.
pub record IsSized (s : Internal) : Type 0 where
  pub osz : s.diagram.osz ≤ 2
  pub asz : s.diagram.asz ≤ 2

add_bytecode-IsSized :
    (s : Internal) (bytes : List ℕ) (kind : BytecodeType)
    → IsSized s
    → IsSized (add_bytecode s bytes kind).0
unfolding add_bytecode
add_bytecode-IsSized s bytes kind h =
    if-cases (λ (r : Internal × Bool). IsSized r.0)
      (leb max_bytecode_count (length s.insn.bytecodes)) (λ _. h)
      λ _. record { osz = h.osz; asz = h.asz }

taken-IsSized :
    (s : Internal) (n : ℕ) (bytes : List ℕ) (kind : BytecodeType)
    → IsSized s
    → IsSized (add_bytecode (advance s n) bytes kind).0
unfolding advance
taken-IsSized s n bytes kind h =
    add_bytecode-IsSized _ bytes kind (record { osz = h.osz; asz = h.asz })

module _ (s : Internal) (h : IsSized s) where
  rex_fields-IsSized : (rex : ℕ) → IsSized (rex_fields s rex)
  unfolding rex_fields set_w_field
  rex_fields-IsSized rex = ground (arith, h.osz, h.asz)

  mmmmm-IsSized : (value : ℕ) → IsSized (set_mmmmm_field s value).0
  unfolding set_mmmmm_field
  mmmmm-IsSized value = ground (arith, h.osz, h.asz)

  vex2_fields-IsSized : (byte1 : ℕ) → IsSized (vex2_fields s byte1)
  unfolding vex2_fields set_mmmmm_field set_w_field set_pp_field set_ll_field set_rxb_fields
      set_vvvv_field set_enc_field
  vex2_fields-IsSized byte1 = ground (arith, h.osz, h.asz)

  vex3_fields-IsSized : (byte1 byte2 : ℕ) → IsSized (vex3_fields s byte1 byte2)
  unfolding vex3_fields set_mmmmm_field set_w_field set_pp_field set_ll_field set_rxb_fields
      set_vvvv_field set_enc_field
  vex3_fields-IsSized byte1 byte2 = ground (arith, h.osz, h.asz)

  xop_fields-IsSized : (byte1 byte2 : ℕ) → IsSized (xop_fields s byte1 byte2)
  unfolding xop_fields set_mmmmm_field set_w_field set_pp_field set_ll_field set_rxb_fields
      set_vvvv_field set_enc_field
  xop_fields-IsSized byte1 byte2 = ground (arith, h.osz, h.asz)

  mvex_fields-IsSized : (byte1 byte2 byte3 : ℕ) → IsSized (mvex_fields s byte1 byte2 byte3)
  unfolding mvex_fields set_vector_fields set_mmmmm_field set_w_field set_pp_field set_ll_field
      set_rxb_fields set_vvvv_field set_enc_field
  mvex_fields-IsSized byte1 byte2 byte3 = ground (arith, h.osz, h.asz)

  evex_fields-IsSized : (byte1 byte2 byte3 : ℕ) → IsSized (evex_fields s byte1 byte2 byte3)
  unfolding evex_fields set_vector_fields set_mmmmm_field set_w_field set_pp_field set_ll_field
      set_rxb_fields set_vvvv_field set_enc_field
  evex_fields-IsSized byte1 byte2 byte3 = ground (arith, h.osz, h.asz)

-- The prefixes. A result is sized where its state is.
abbrev pub KeepsSized : Internal × Bool → Type 0
KeepsSized r = IsSized r.0

module _ (s : Internal) (h : IsSized s) where
  pub decode_rex-IsSized : KeepsSized (decode_rex s)
  unfolding decode_rex advance_byte
  decode_rex-IsSized =
      if-cases KeepsSized s.diagram.long_mode
        (λ _.
          some-cases KeepsSized (peek_byte s) (λ _. h)
            λ rex _.
              add_bytecode-IsSized _ (rex ∷ []) BytecodeType.rex
                (rex_fields-IsSized (advance_byte s) (record { osz = h.osz; asz = h.asz }) rex))
        λ _. h

  pub decode_vex2-IsSized : KeepsSized (decode_vex2 s)
  unfolding decode_vex2
  decode_vex2-IsSized =
      some-cases KeepsSized (peek_bytes s 2) (λ _. h)
        λ v _.
          if-cases KeepsSized (not s.diagram.long_mode && not (flag 7 (get_or v 1 0))) (λ _. h)
            λ _. taken-IsSized _ 2 v BytecodeType.vex2 (vex2_fields-IsSized s h (get_or v 1 0))

  pub decode_vex3-IsSized : KeepsSized (decode_vex3 s)
  unfolding decode_vex3
  decode_vex3-IsSized =
      some-cases KeepsSized (peek_bytes s 3) (λ _. h)
        λ v _.
          let byte1 = get_or v 1 0 in
          let map = mmmmm-IsSized s h (field 0 5 byte1) in
          if-cases KeepsSized (not s.diagram.long_mode && not (has_rxb byte1)) (λ _. h)
            λ _.
              if-cases KeepsSized (not (set_mmmmm_field s (field 0 5 byte1)).1) (λ _. map)
                λ _.
                  taken-IsSized _ 3 v BytecodeType.vex3
                    (vex3_fields-IsSized _ map byte1 (get_or v 2 0))

  pub decode_xop-IsSized : KeepsSized (decode_xop s)
  unfolding decode_xop
  decode_xop-IsSized =
      some-cases KeepsSized (peek_bytes s 3) (λ _. h)
        λ v _.
          let byte1 = get_or v 1 0 in
          if-cases KeepsSized (not s.diagram.long_mode && not (has_rxb byte1)) (λ _. h)
            λ _.
              if-cases KeepsSized (not (is_xop_map (field 0 5 byte1))) (λ _. h)
                λ _.
                  taken-IsSized _ 3 v BytecodeType.vex3
                    (xop_fields-IsSized s h byte1 (get_or v 2 0))

  decode_mvex-IsSized : (v : List ℕ) → KeepsSized (decode_mvex s v)
  unfolding decode_mvex set_enc_field
  decode_mvex-IsSized v =
      let byte1 = get_or v 1 0 in
      if-cases KeepsSized (not s.diagram.long_mode && not (has_rxb byte1)) (λ _. h)
        λ _.
          if-cases KeepsSized (leb 4 (field 0 4 byte1)) (λ _. h)
            λ _.
              let t =
                taken-IsSized _ 4 v BytecodeType.mvex
                  (mvex_fields-IsSized s h byte1 (get_or v 2 0) (get_or v 3 0)) in
              record { osz = t.osz; asz = t.asz }

  decode_evex-IsSized : (v : List ℕ) → KeepsSized (decode_evex s v)
  unfolding decode_evex set_enc_field
  decode_evex-IsSized v =
      let byte1 = get_or v 1 0 in
      let map = mmmmm-IsSized s h (field 0 2 byte1) in
      if-cases KeepsSized (not s.diagram.long_mode && not (has_rxb byte1)) (λ _. h)
        λ _.
          if-cases KeepsSized (not (set_mmmmm_field s (field 0 2 byte1)).1) (λ _. map)
            λ _.
              let t =
                taken-IsSized _ 4 v BytecodeType.evex
                  (evex_fields-IsSized _ map byte1 (get_or v 2 0) (get_or v 3 0)) in
              record { osz = t.osz; asz = t.asz }

  pub decode_mevex-IsSized : KeepsSized (decode_mevex s)
  unfolding decode_mevex
  decode_mevex-IsSized =
      some-cases KeepsSized (peek_bytes s 4) (λ _. h)
        λ v _.
          if-cases KeepsSized (is_mvex v && not s.diagram.long_mode) (λ _. h)
            λ _.
              if-cases KeepsSized (is_mvex v) (λ _. decode_mvex-IsSized v)
                λ _. decode_evex-IsSized v
