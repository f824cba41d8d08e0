-- ===== src/X86/Moves/Prefix.antt =====
-- source/x86/decoder.c: the moves of the REX, VEX, XOP, EVEX and MVEX prefixes.
use amed.Base.{
  ℕ, ◌<◌, ◌≡◌, arith, some-cases, if-cases, List, Bool, field, flag, leb, not, ◌&&◌, get_or, some,
  subst, sym, refl, [], ◌∷◌,
}
use amed.X86.Names.{BytecodeType, encoding_mvex, encoding_evex}
use amed.X86.State.{Internal}
use amed.X86.Fetch.{peek_byte, peek_bytes, advance_byte, advance, add_bytecode}
use amed.X86.Setters.{
  set_pp_field, set_ll_field, set_mmmmm_field, set_w_field, set_rxb_fields, set_vvvv_field,
  set_enc_field,
}
use amed.X86.Prefix.{
  rex_fields, vex2_fields, vex3_fields, xop_fields, set_vector_fields, mvex_fields, evex_fields,
  decode_rex, decode_vex2, decode_vex3, decode_xop, decode_mvex, decode_evex, decode_mevex, has_rxb,
  is_xop_map, is_mvex,
}
use amed.X86.Moves.{Moves, Moves-trans, Quiet, Quiet-trans, Quiet-Moves, Kept, unmoved}
use amed.X86.Moves.Steps.{taken-Moves, peek_byte-fits, advance-Moves}

set_mmmmm_field-Quiet : (s : Internal) (value : ℕ) → Quiet s (set_mmmmm_field s value).0
unfolding set_mmmmm_field
set_mmmmm_field-Quiet s value = ground arith

pub rex_fields-Quiet : (s : Internal) (rex : ℕ) → Quiet s (rex_fields s rex)
unfolding rex_fields set_w_field
rex_fields-Quiet s rex = ground arith

vex2_fields-Quiet : (s : Internal) (byte1 : ℕ) → Quiet s (vex2_fields s byte1)
unfolding vex2_fields set_mmmmm_field set_w_field set_pp_field set_ll_field set_rxb_fields
    set_vvvv_field set_enc_field
vex2_fields-Quiet s byte1 = ground arith

vex3_fields-Quiet : (s : Internal) (byte1 byte2 : ℕ) → Quiet s (vex3_fields s byte1 byte2)
unfolding vex3_fields set_mmmmm_field set_w_field set_pp_field set_ll_field set_rxb_fields
    set_vvvv_field set_enc_field
vex3_fields-Quiet s byte1 byte2 = ground arith

xop_fields-Quiet : (s : Internal) (byte1 byte2 : ℕ) → Quiet s (xop_fields s byte1 byte2)
unfolding xop_fields set_mmmmm_field set_w_field set_pp_field set_ll_field set_rxb_fields
    set_vvvv_field set_enc_field
xop_fields-Quiet s byte1 byte2 = ground arith

mvex_fields-Quiet :
    (s : Internal) (byte1 byte2 byte3 : ℕ) → Quiet s (mvex_fields s byte1 byte2 byte3)
unfolding mvex_fields set_vector_fields set_mmmmm_field set_w_field set_pp_field set_ll_field
    set_rxb_fields set_vvvv_field set_enc_field
mvex_fields-Quiet s byte1 byte2 byte3 = ground arith

evex_fields-Quiet :
    (s : Internal) (byte1 byte2 byte3 : ℕ) → Quiet s (evex_fields s byte1 byte2 byte3)
unfolding evex_fields set_vector_fields set_mmmmm_field set_w_field set_pp_field set_ll_field
    set_rxb_fields set_vvvv_field set_enc_field
evex_fields-Quiet s byte1 byte2 byte3 = ground arith

abbrev refused : Internal → ℕ → Bool
refused s byte1 = not s.diagram.long_mode && not (has_rxb byte1)

pub decode_vex2-Kept : (s : Internal) → s.nb < 256 → Kept s (decode_vex2 s)
unfolding decode_vex2
decode_vex2-Kept s h =
    some-cases (Kept s) (peek_bytes s 2) (λ _. unmoved s)
      λ v e.
        if-cases (Kept s) (not s.diagram.long_mode && not (flag 7 (get_or v 1 0))) (λ _. unmoved s)
          λ _. record {
            moves = taken-Moves 2 v BytecodeType.vex2 h e (vex2_fields-Quiet s (get_or v 1 0));
          }

pub decode_vex3-Kept : (s : Internal) → s.nb < 256 → Kept s (decode_vex3 s)
unfolding decode_vex3
decode_vex3-Kept s h =
    some-cases (Kept s) (peek_bytes s 3) (λ _. unmoved s)
      λ v e.
        let map = set_mmmmm_field-Quiet s (field 0 5 (get_or v 1 0)) in
        if-cases (Kept s) (refused s (get_or v 1 0)) (λ _. unmoved s)
          λ _.
            if-cases (Kept s) (not (set_mmmmm_field s (field 0 5 (get_or v 1 0))).1)
              (λ _. record { moves = Quiet-Moves map })
              λ _. record {
                moves =
                    taken-Moves 3 v BytecodeType.vex3 h e
                      (Quiet-trans map (vex3_fields-Quiet _ (get_or v 1 0) (get_or v 2 0)));
              }

pub decode_xop-Kept : (s : Internal) → s.nb < 256 → Kept s (decode_xop s)
unfolding decode_xop
decode_xop-Kept s h =
    some-cases (Kept s) (peek_bytes s 3) (λ _. unmoved s)
      λ v e.
        if-cases (Kept s) (refused s (get_or v 1 0)) (λ _. unmoved s)
          λ _.
            if-cases (Kept s) (not (is_xop_map (field 0 5 (get_or v 1 0)))) (λ _. unmoved s)
              λ _. record {
                moves =
                    taken-Moves 3 v BytecodeType.vex3 h e
                      (xop_fields-Quiet s (get_or v 1 0) (get_or v 2 0));
              }

set_enc_field-Quiet : (s : Internal) (enc : ℕ) → Quiet s (set_enc_field s enc)
unfolding set_enc_field
set_enc_field-Quiet s enc = ground arith

module _ (s : Internal) (h : s.nb < 256) (v : List ℕ) (e : peek_bytes s 4 ≡ some v) where
  decode_mvex-Kept : Kept s (decode_mvex s v)
  unfolding decode_mvex
  decode_mvex-Kept =
      if-cases (Kept s) (refused s (get_or v 1 0)) (λ _. unmoved s)
        λ _.
          if-cases (Kept s) (leb 4 (field 0 4 (get_or v 1 0))) (λ _. unmoved s)
            λ _. record {
              moves =
                  Moves-trans
                    (taken-Moves 4 v BytecodeType.mvex h e
                      (mvex_fields-Quiet s (get_or v 1 0) (get_or v 2 0) (get_or v 3 0)))
                    (Quiet-Moves (set_enc_field-Quiet _ encoding_mvex));
            }

  decode_evex-Kept : Kept s (decode_evex s v)
  unfolding decode_evex
  decode_evex-Kept =
      let map = set_mmmmm_field-Quiet s (field 0 2 (get_or v 1 0)) in
      if-cases (Kept s) (refused s (get_or v 1 0)) (λ _. unmoved s)
        λ _.
          if-cases (Kept s) (not (set_mmmmm_field s (field 0 2 (get_or v 1 0))).1)
            (λ _. record { moves = Quiet-Moves map })
            λ _. record {
              moves =
                  Moves-trans
                    (taken-Moves 4 v BytecodeType.evex h e (
                      Quiet-trans map
                        (evex_fields-Quiet _ (get_or v 1 0) (get_or v 2 0) (get_or v 3 0))))
                    (Quiet-Moves (set_enc_field-Quiet _ encoding_evex));
            }

pub decode_mevex-Kept : (s : Internal) → s.nb < 256 → Kept s (decode_mevex s)
unfolding decode_mevex
decode_mevex-Kept s h =
    some-cases (Kept s) (peek_bytes s 4) (λ _. unmoved s)
      λ v e.
        if-cases (Kept s) (is_mvex v && not s.diagram.long_mode) (λ _. unmoved s)
          λ _.
            if-cases (Kept s) (is_mvex v) (λ _. decode_mvex-Kept s h v e)
              λ _. decode_evex-Kept s h v e

-- REX advances before it sets the fields.
rex_fields-advance_byte :
    (s : Internal) (rex : ℕ) → rex_fields (advance_byte s) rex ≡ advance (rex_fields s rex) 1
unfolding rex_fields set_w_field advance_byte advance
rex_fields-advance_byte s rex = refl

pub decode_rex-Kept : (s : Internal) → s.nb < 256 → Kept s (decode_rex s)
unfolding decode_rex
decode_rex-Kept s h =
    if-cases (Kept s) (s.diagram.long_mode)
      (λ _.
        some-cases (Kept s) (peek_byte s) (λ _. unmoved s)
          λ rex e. record {
            moves =
                subst (λ t. Moves s (add_bytecode t (rex ∷ []) BytecodeType.rex).0)
                  (sym (rex_fields-advance_byte s rex))
                  (advance-Moves 1 (rex ∷ []) BytecodeType.rex h (peek_byte-fits s rex e).0 refl
                    (rex_fields-Quiet s rex));
          })
      (λ _. unmoved s)
