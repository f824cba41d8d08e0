-- ===== src/X86/Modrm.antt =====
-- source/x86/decoder.c, the ModRM and SIB bytes and the displacement.
pub mod Length
pub mod Sib
pub mod Operand
use amed.Base.{
  ℕ, ◌+◌, ◌*◌, ◌^◌, Bool, true, false, not, ◌&&◌, ◌||◌, none, some, List, [], ◌∷◌, ◌==◌, ltb,
  if◌then◌else◌, get_or, field,
}
use amed.Base.Int.{ℤ, pos, signed, mul_ℕ, is_zero}
use amed.Utils.Datatype.{Datatype}
use amed.X86.Names.{
  BytecodeType, encoding_none, encoding_evex, encoding_mvex, register_none, register_ip,
  register_eip, register_rip,
}
use amed.X86.Database.{Tuple}
use amed.X86.Diagram.{Diagram}
use amed.X86.State.{Internal}
use amed.X86.Fetch.{add_bytecode, peek_byte, advance_byte, advance, bytes_from, le_value}

-- A row of a table, by the vector length `vl`.
abbrev by_vl : ℕ → ℕ → ℕ → ℕ → ℕ
by_vl n128 n256 n512 vl = get_or (n128 ∷ n256 ∷ n512 ∷ []) vl 0

-- `get_evex_disp8_n`, of the template's tuple: what an 8-bit displacement is scaled by.
unfoldable pub get_evex_disp8_n : Tuple → Diagram → ℕ
get_evex_disp8_n Tuple.fv d =
    if d.bp then (if d.w then by_vl 8 8 8 d.vl else by_vl 4 4 4 d.vl) else by_vl 16 32 64 d.vl
get_evex_disp8_n Tuple.hv d = if d.b then by_vl 4 4 4 d.vl else by_vl 8 16 32 d.vl
get_evex_disp8_n Tuple.t1s8 d = 1
get_evex_disp8_n Tuple.t1s16 d = 2
get_evex_disp8_n Tuple.t1s d = if d.w then 8 else 4
get_evex_disp8_n Tuple.t1f32 d = 4
get_evex_disp8_n Tuple.t1f64 d = 8
get_evex_disp8_n Tuple.t2 d = if d.w then 16 else 8
get_evex_disp8_n Tuple.t4 d = if d.w then 32 else 16
get_evex_disp8_n Tuple.t8 d = 32
get_evex_disp8_n Tuple.fvm d = by_vl 16 32 64 d.vl
get_evex_disp8_n Tuple.hvm d = by_vl 8 16 32 d.vl
get_evex_disp8_n Tuple.qvm d = by_vl 4 8 16 d.vl
get_evex_disp8_n Tuple.ovm d = by_vl 2 4 8 d.vl
get_evex_disp8_n Tuple.m128 d = 16
get_evex_disp8_n Tuple.dup d = by_vl 8 32 64 d.vl
get_evex_disp8_n Tuple.none d = 1

-- The displacement of one byte, whose scale by the vector length is already applied for EVEX and
-- left to the memory argument for MVEX.
unfoldable pub decode_disp8 : Internal → ℤ → Internal
decode_disp8 s disp =
    if is_zero disp
    then record s { diagram = record (s.diagram) { disp = disp }; disp_datatype = Datatype.s8 }
    else if s.diagram.enc == encoding_evex
    then record s {
      diagram = record (s.diagram) {
        disp = mul_ℕ disp (get_evex_disp8_n s.ptemplate.tuple s.diagram);
      };
      uses_compressed_disp = true;
      disp_datatype = Datatype.s16;
    }
    else if s.diagram.enc == encoding_mvex
    then record s {
      diagram = record (s.diagram) { disp = disp };
      uses_compressed_disp = true;
      disp_datatype = Datatype.s16;
    }
    else record s { diagram = record (s.diagram) { disp = disp }; disp_datatype = Datatype.s8 }

-- The last lines of `decode_disp`: the bytes are recorded as they stand in memory.
unfoldable pub finish_disp : Internal → ℕ → List ℕ → Internal × Bool
finish_disp s length bytes =
    let s1 = record s { diagram = record (s.diagram) { has_disp = true } } in
    ((add_bytecode (advance s1 length) bytes BytecodeType.disp).0, true)

unfoldable pub decode_disp : Internal → ℕ → Internal × Bool
decode_disp s length =
    let bytes = bytes_from s.address s.pc length in
    if ltb s.nb (s.pc + length)
    then (s, false)
    else if length == 1
    then finish_disp (decode_disp8 s (signed 8 (le_value bytes))) 1 bytes
    else if length == 2
    then finish_disp
        (record s {
          diagram = record (s.diagram) { disp = signed 16 (le_value bytes) };
          disp_datatype = Datatype.s16;
        })
        2 bytes
    else if length == 4
    then finish_disp
        (record s {
          diagram = record (s.diagram) { disp = signed 32 (le_value bytes) };
          disp_datatype = Datatype.s32;
        })
        4 bytes
    else (s, false)

-- The length of the displacement that a SIB byte with base 5 brings, by the `mod` field.
abbrev pub sib_disp_length : ℕ → ℕ
sib_disp_length modrm_mod =
    if modrm_mod == 0 then 4 else if modrm_mod == 1 then 1 else if modrm_mod == 2 then 4 else 0

-- The fields of a SIB byte, and its record.
unfoldable pub set_sib_fields : Internal → ℕ → Internal
set_sib_fields s sib =
    let s1 = record s {
      diagram = record (s.diagram) {
        index = field 3 3 sib;
        base = field 0 3 sib;
        scale = 2 ^ field 6 2 sib;
        has_sib = true;
      };
      has_index =
          not (s.diagram.enc == encoding_none) || not (not s.diagram.x && field 3 3 sib == 4);
    } in
    (add_bytecode s1 (sib ∷ []) BytecodeType.sib).0

unfoldable pub decode_sib : Internal → Internal × Bool
decode_sib s = elim (peek_byte s) [
  | none ↦ (s, false)
  | some sib ↦
      let s1 = set_sib_fields (advance_byte s) sib in
      if field 0 3 sib == 5
      then (let disp_length = sib_disp_length s1.diagram.modrm_mod in
          let s2 = if s1.diagram.modrm_mod == 0 then record s1 { has_base = false } else s1 in
          if disp_length == 0 then (s2, true) else decode_disp s2 disp_length)
      else (s1, true)
]

-- What the `switch` on `mod` finds: whether a SIB byte follows, the length of the displacement, and
-- whether the operand is relative to the instruction pointer.
abbrev pub has_sib_byte : ℕ → ℕ → Bool
has_sib_byte modrm_mod rm = ltb modrm_mod 3 && rm == 4

abbrev pub modrm_disp_size : ℕ → ℕ → ℕ
modrm_disp_size modrm_mod rm =
    if modrm_mod == 0
    then (if rm == 5 then 4 else 0)
    else if modrm_mod == 1
    then 1
    else if modrm_mod == 2
    then 4
    else 0

abbrev pub is_ip_relative : ℕ → ℕ → Bool
is_ip_relative modrm_mod rm = modrm_mod == 0 && rm == 5

-- The initial values, the ModRM byte, and the base of an operand without one.
unfoldable pub start_modrm : Internal → Internal
start_modrm s =
    let d = s.diagram in
    let modrm = d.rm + d.reg * 8 + d.modrm_mod * 64 in
    let s1 = (add_bytecode (advance_byte s) (modrm ∷ []) BytecodeType.modrm).0 in
    let from_ip = is_ip_relative d.modrm_mod d.rm in
    let has_ip = d.long_mode && not (d.asz == 0) in
    record s1 {
      has_base = if from_ip then has_ip else true;
      base_ip =
          if from_ip && has_ip
          then get_or (register_ip ∷ register_eip ∷ register_rip ∷ []) d.asz register_none
          else register_none;
      disp_datatype = Datatype.none;
      diagram = record (s1.diagram) { disp = pos 0 };
    }

unfoldable pub decode_modrm : Internal → Internal × Bool
decode_modrm s =
    let modrm_mod = s.diagram.modrm_mod in
    let rm = s.diagram.rm in
    let s1 = start_modrm s in
    let (s2, sib_ok) = if has_sib_byte modrm_mod rm then decode_sib s1 else (s1, true) in
    let disp_size = modrm_disp_size modrm_mod rm in
    let (s3, disp_ok) =
      if sib_ok && not (disp_size == 0) then decode_disp s2 disp_size else (s2, sib_ok) in
    if disp_ok
    then (record s3 { diagram = record (s3.diagram) { has_modrm = true } }, true)
    else (s3, false)
