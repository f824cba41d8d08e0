-- ===== src/X86/Prefix.antt =====
-- source/x86/decoder.c, the REX, VEX, XOP, EVEX and MVEX prefixes. The fields of a prefix are the
-- bit fields of include/amed.h. A decoder returns the state and whether it succeeded.
pub mod Equivalence
use amed.Base.{
  ℕ, ◌+◌, ◌-◌, Bool, true, false, not, ◌&&◌, ◌||◌, Option, none, some, List, [], ◌∷◌, ◌==◌, leb,
  if◌then◌else◌, get_or, field, flag, u8,
}
use amed.X86.Names.{
  BytecodeType, encoding_vex, encoding_evex, encoding_mvex, encoding_xop, map_idx_0f, map_idx_0f38,
  map_idx_0f3a, map_idx_xop8, map_idx_xop9, map_idx_xopa,
}
use amed.X86.State.{Internal}
use amed.X86.Fetch.{add_bytecode, peek_byte, peek_bytes, advance_byte, advance}
use amed.X86.Setters.{
  set_pp_field, set_ll_field, set_mmmmm_field, set_w_field, set_rxb_fields, set_vvvv_field,
  set_enc_field,
}

unfoldable pub rex_fields : Internal → ℕ → Internal
rex_fields s rex =
    set_w_field
      (record s {
        diagram = record (s.diagram) {
          fb = flag 0 rex;
          b = flag 0 rex;
          r = flag 2 rex;
          x = flag 1 rex;
          has_rex = true;
        };
        vfpc = u8 (s.vfpc + 1);
      })
      (flag 3 rex)

unfoldable pub decode_rex : Internal → Internal × Bool
decode_rex s =
    if s.diagram.long_mode
    then elim (peek_byte s) [
      | none ↦ (s, false)
      | some rex ↦
          ((add_bytecode (rex_fields (advance_byte s) rex) (rex ∷ []) BytecodeType.rex).0, true)
    ]
    else (s, false)

-- Outside 64-bit mode the inverted R, X and B must all be set.
abbrev pub has_rxb : ℕ → Bool
has_rxb byte1 = flag 7 byte1 && flag 6 byte1 && flag 5 byte1

-- Of the R, X and B that VEX2 lacks only R is set.
unfoldable pub vex2_fields : Internal → ℕ → Internal
vex2_fields s byte1 =
    let s1 = (set_mmmmm_field s 1).0 in
    let s2 = set_pp_field s1 (field 0 2 byte1) in
    let s3 = (set_ll_field s2 (field 2 1 byte1)).0 in
    record s3 {
      diagram = record (s3.diagram) {
        enc = encoding_vex;
        has_rex = true;
        r = not (flag 7 byte1);
        vvvv = 15 - field 3 4 byte1;
      };
    }

unfoldable pub decode_vex2 : Internal → Internal × Bool
decode_vex2 s = elim (peek_bytes s 2) [
  | none ↦ (s, false)
  | some vex2 ↦
      let s1 = vex2_fields s (get_or vex2 1 0) in
      if not s.diagram.long_mode && not (flag 7 (get_or vex2 1 0))
      then (s, false)
      else ((add_bytecode (advance s1 2) vex2 BytecodeType.vex2).0, true)
]

-- The fields after the map. The source sets `w` once more at the end, to the same value.
unfoldable pub vex3_fields : Internal → ℕ → ℕ → Internal
vex3_fields s byte1 byte2 =
    let s1 = set_w_field s (flag 7 byte2) in
    let s2 = set_pp_field s1 (field 0 2 byte2) in
    let s3 = (set_ll_field s2 (field 2 1 byte2)).0 in
    let s4 = set_enc_field s3 encoding_vex in
    let s5 = set_rxb_fields s4 (flag 7 byte1) (flag 6 byte1) (flag 5 byte1) in
    set_vvvv_field s5 (field 3 4 byte2)

unfoldable pub decode_vex3 : Internal → Internal × Bool
decode_vex3 s = elim (peek_bytes s 3) [
  | none ↦ (s, false)
  | some vex3 ↦
      let byte1 = get_or vex3 1 0 in
      let (s1, known_map) = set_mmmmm_field s (field 0 5 byte1) in
      let s2 = vex3_fields s1 byte1 (get_or vex3 2 0) in
      if not s.diagram.long_mode && not (has_rxb byte1)
      then (s, false)
      else if not known_map
      then (s1, false)
      else ((add_bytecode (advance s2 3) vex3 BytecodeType.vex3).0, true)
]

-- The map of an XOP prefix, and the fields.
unfoldable pub xop_fields : Internal → ℕ → ℕ → Internal
xop_fields s byte1 byte2 =
    let mmmmm = field 0 5 byte1 in
    let s1 = record s {
      mapidx =
          if mmmmm == 8 then map_idx_xop8 else if mmmmm == 9 then map_idx_xop9 else map_idx_xopa;
    } in
    let s2 = set_enc_field s1 encoding_xop in
    let s3 = set_rxb_fields s2 (flag 7 byte1) (flag 6 byte1) (flag 5 byte1) in
    let s4 = set_vvvv_field s3 (field 3 4 byte2) in
    let s5 = set_w_field s4 (flag 7 byte2) in (set_ll_field s5 (field 2 1 byte2)).0

abbrev pub is_xop_map : ℕ → Bool
is_xop_map mmmmm = mmmmm == 8 || mmmmm == 9 || mmmmm == 10

-- The bytes are recorded as a VEX3 prefix, as the source does.
unfoldable pub decode_xop : Internal → Internal × Bool
decode_xop s = elim (peek_bytes s 3) [
  | none ↦ (s, false)
  | some xop ↦
      let byte1 = get_or xop 1 0 in
      let s1 = xop_fields s byte1 (get_or xop 2 0) in
      if not s.diagram.long_mode && not (has_rxb byte1)
      then (s, false)
      else if not (is_xop_map (field 0 5 byte1))
      then (s, false)
      else ((add_bytecode (advance s1 3) xop BytecodeType.vex3).0, true)
]

-- The fields that EVEX and MVEX share, but for `vvvv`, whose bits both have in the same place.
unfoldable pub set_vector_fields : Internal → ℕ → ℕ → ℕ → Internal
set_vector_fields s byte1 byte2 byte3 =
    let s1 = set_pp_field s (field 0 2 byte2) in
    let s2 = set_w_field s1 (flag 7 byte2) in
    let s3 = set_rxb_fields s2 (flag 7 byte1) (flag 6 byte1) (flag 5 byte1) in
    let s4 = set_vvvv_field s3 (field 3 4 byte2) in
    record s4 {
      diagram = record (s4.diagram) {
        rp = not (flag 4 byte1);
        vp = not (flag 3 byte3);
        aaa = field 0 3 byte3;
      };
    }

-- The branch `ENCODING_MVEX`.
unfoldable pub mvex_fields : Internal → ℕ → ℕ → ℕ → Internal
mvex_fields s byte1 byte2 byte3 =
    let mmmm = field 0 4 byte1 in
    let s1 = record s {
      mapidx = if leb mmmm 1 then map_idx_0f else if mmmm == 2 then map_idx_0f38 else map_idx_0f3a;
    } in
    let s2 = set_vector_fields s1 byte1 byte2 byte3 in
    record s2 {
      diagram = record (s2.diagram) { e = flag 7 byte3; z = false; sss = field 4 3 byte3 };
    }

unfoldable pub decode_mvex : Internal → List ℕ → Internal × Bool
decode_mvex s mvex =
    let byte1 = get_or mvex 1 0 in
    let s1 = mvex_fields s byte1 (get_or mvex 2 0) (get_or mvex 3 0) in
    if not s.diagram.long_mode && not (has_rxb byte1)
    then (s, false)
    else if leb 4 (field 0 4 byte1)
    then (s, false)
    else (set_enc_field (add_bytecode (advance s1 4) mvex BytecodeType.mvex).0 encoding_mvex, true)

-- The branch `ENCODING_EVEX`, after the map.
unfoldable pub evex_fields : Internal → ℕ → ℕ → ℕ → Internal
evex_fields s byte1 byte2 byte3 =
    let s1 = set_vector_fields s byte1 byte2 byte3 in
    let s2 = (set_ll_field s1 (field 5 2 byte3)).0 in
    record s2 {
      diagram = record (s2.diagram) { bp = flag 4 byte3; fb = flag 4 byte3; z = flag 7 byte3 };
    }

unfoldable pub decode_evex : Internal → List ℕ → Internal × Bool
decode_evex s evex =
    let byte1 = get_or evex 1 0 in
    let (s1, known_map) = set_mmmmm_field s (field 0 2 byte1) in
    let s2 = evex_fields s1 byte1 (get_or evex 2 0) (get_or evex 3 0) in
    if not s.diagram.long_mode && not (has_rxb byte1)
    then (s, false)
    else if not known_map
    then (s1, false)
    else (set_enc_field (add_bytecode (advance s2 4) evex BytecodeType.evex).0 encoding_evex, true)

-- Reserved bits that do not fit EVEX make the prefix an MVEX one, in 64-bit mode only. The two
-- branches end with the lines after the `switch`: the source records the bytes before it moves
-- `pc`, which no record looks at.
unfoldable pub is_mvex : List ℕ → Bool
is_mvex prefix = not (field 2 2 (get_or prefix 1 0) == 0) || not (flag 2 (get_or prefix 2 0))

unfoldable pub decode_mevex : Internal → Internal × Bool
decode_mevex s = elim (peek_bytes s 4) [
  | none ↦ (s, false)
  | some prefix ↦
      if is_mvex prefix && not s.diagram.long_mode
      then (s, false)
      else if is_mvex prefix
      then decode_mvex s prefix
      else decode_evex s prefix
]
