-- ===== src/X86/Arguments/Immediates.antt =====
-- source/x86/decoder.c, immediate arguments, and the arguments that only show a bit of a vector
-- prefix. An immediate is its 64-bit pattern.
pub mod Extension
pub mod Value
use amed.Base.{
  ℕ, ◌+◌, ◌-◌, ◌*◌, ◌/◌, ◌%◌, ◌^◌, Bool, true, false, not, ◌&&◌, ◌||◌, Option, none, some, List, [],
  ◌∷◌, bit_or, ◌==◌, ltb, leb, if◌then◌else◌, get_or, flag, bit, u8, u16,
}
use amed.Utils.Datatype.{Datatype, get_datatype_size, is_datatype_signed, get_normalized_datatype}
use amed.X86.Names.{BytecodeType, encoding_evex, encoding_mvex}
use amed.X86.Symbols.{symbol_shl, symbol_shr, encodedin_is4, encodedin_vprefix}
use amed.X86.Database.{AnyNode}
use amed.X86.State.{ArgumentType, Argument, Internal}
use amed.X86.Fetch.{add_bytecode, peek_bytes, advance, le_value}
use amed.X86.Register.{get_real_size, get_is4_value}
use amed.X86.Arguments.Slots.{argument_at, set_argument}

-- The sign extension at the end: the bits from the sign bit of `size` bits up are set.
unfoldable pub extend_immediate : Bool → ℕ → ℕ → ℕ
extend_immediate is_signed size imm =
    if is_signed && flag (size - 1) imm
    then bit_or imm ((2 ^ 64 - 1) * 2 ^ (size - 1) % 2 ^ 64)
    else imm

-- What is set before the immediate is read.
unfoldable pub start_immediate : AnyNode → ℕ → Argument → Argument
start_immediate n size a = record a {
  size = size;
  kind = ArgumentType.immediate;
  datatype = get_normalized_datatype n.datatype size;
  imm = 0;
}

unfoldable pub set_immediate : Internal → ℕ → ℕ → Internal
set_immediate s i imm = set_argument s i (record (argument_at s i) { imm = imm })

unfoldable pub decode_arg_imm : Internal → ℕ → AnyNode → Internal × Bool
decode_arg_imm s i n =
    let size = get_real_size n.size s.diagram.osz in
    let nbytes = u8 (size / 8) in
    let is_signed = is_datatype_signed (get_normalized_datatype n.datatype size) in
    let s1 = set_argument s i (start_immediate n size (argument_at s i)) in
    if not n.has_encodedin
    then (set_immediate s1 i (u16 n.value), true)
    else if n.value == encodedin_is4
    then (let (is4, s2) = get_is4_value s1 in
        (set_immediate s2 i (extend_immediate is_signed size (is4 % 16)), true))
    else elim (peek_bytes s1 nbytes) [
      | none ↦ (s1, false)
      | some bytes ↦
          let s2 = (add_bytecode (advance s1 nbytes) bytes BytecodeType.imm).0 in
          (set_immediate s2 i (extend_immediate is_signed size (le_value bytes)), true)
    ]

-- The width of an element of the last register that is read; `none` where the range of a shift is
-- not looked at.
abbrev pub shifted_size : Internal → Option ℕ
shifted_size s = if s.insn.is_ugly then none else elim (s.src_reg) [
  | none ↦ none
  | some r ↦ some (get_datatype_size (argument_at s r).datatype)
]

abbrev set_ugly : Internal → Bool → Internal
set_ugly s ugly = record s { insn = record (s.insn) { is_ugly = ugly } }

unfoldable pub decode_arg_imm_shift : Internal → ℕ → AnyNode → Internal × Bool
decode_arg_imm_shift s i n =
    let (s1, ok) = decode_arg_imm s i n in
    let shift = u16 (argument_at s1 i).imm in
    if not ok then (s1, false) else elim (shifted_size s1) [
      | none ↦ (s1, true)
      | some esize ↦
          if n.symbol == symbol_shl
          then (set_ugly s1 (not (ltb shift esize)), true)
          else if n.symbol == symbol_shr
          then (set_ugly s1 (not (leb 1 shift && leb shift esize)), true)
          else (s1, true)
    ]

unfoldable pub decode_arg_imm_rotate : Internal → ℕ → AnyNode → Internal × Bool
decode_arg_imm_rotate s i n =
    let (s1, ok) = decode_arg_imm s i n in
    let shift = u16 (argument_at s1 i).imm in
    if not ok then (s1, false) else elim (shifted_size s1) [
      | none ↦ (s1, true)
      | some esize ↦ (set_ugly s1 (not (ltb shift esize)), true)
    ]

-- `AMED_X86_COMPARISON_PREDICATE_EQ_OQ` is 1.
unfoldable pub decode_arg_cc : Internal → ℕ → AnyNode → Internal × Bool
decode_arg_cc s i n =
    let (s1, ok) = decode_arg_imm s i n in
    let a = argument_at s1 i in
    let predicate = u8 a.imm in
    if not ok then (s1, false) else (
      set_argument s1 i (
          if leb predicate 0x1f
          then record a { token = predicate + 1; kind = ArgumentType.condition }
          else record a { is_representable = false; kind = ArgumentType.condition }),
      true,
    )

unfoldable pub decode_arg_rel : Internal → ℕ → AnyNode → Internal × Bool
decode_arg_rel s i n =
    let (s1, ok) = decode_arg_imm s i n in
    if not ok
    then (s1, false)
    else (set_argument s1 i (record (argument_at s1 i) { kind = ArgumentType.label }), true)

unfoldable pub decode_node_sae : Internal → ℕ → Internal × Bool
decode_node_sae s i =
    let s1 = set_argument s i (record (argument_at s i) {
      kind = ArgumentType.sae;
      token = bit s.diagram.bp;
      is_representable = true;
      is_suppressed = not s.diagram.bp;
    }) in
    (record s1 { insn = record (s1.insn) { is_suppressing_all_exceptions = s.diagram.bp } }, true)

unfoldable pub decode_node_evh : Internal → ℕ → Internal × Bool
decode_node_evh s i = (
  set_argument s i (record (argument_at s i) {
    kind = ArgumentType.evh;
    token = bit s.diagram.e;
    is_suppressed = not s.diagram.e;
    is_representable = true;
  }),
  true,
)

-- `ll2roundin`: nearest, down, up and zero are 1 to 4 of `amed_rounding_type`, and 0 is none.
abbrev ll2roundin : List ℕ
ll2roundin = 1 ∷ 2 ∷ 3 ∷ 4 ∷ []

abbrev rounding_evex : ℕ → Internal → Bool
rounding_evex encodedin s = encodedin == encodedin_vprefix && s.diagram.enc == encoding_evex

abbrev rounding_mvex : ℕ → Internal → Bool
rounding_mvex encodedin s = encodedin == encodedin_vprefix && s.diagram.enc == encoding_mvex

-- The rounding type, by the node's `encodedin`.
unfoldable pub rounding_of : ℕ → Internal → ℕ
rounding_of encodedin s =
    if rounding_evex encodedin s
    then (if s.diagram.bp then get_or ll2roundin s.diagram.ll 0 else 0)
    else if rounding_mvex encodedin s
    then get_or ll2roundin (s.diagram.sss % 4) 0
    else 0

unfoldable pub decode_node_rc : Internal → ℕ → ℕ → Internal × Bool
decode_node_rc s i encodedin =
    let d = s.diagram in
    let a = argument_at s i in
    let rounding = rounding_of encodedin s in
    let evex = rounding_evex encodedin s in
    let mvex = rounding_mvex encodedin s in
    let s1 = set_argument s i (record a {
      imm = if evex && d.bp then d.ll else if mvex then d.sss else 0;
      is_suppressed = if evex && not d.bp then true else a.is_suppressed;
      kind = ArgumentType.rounding;
      datatype = Datatype.u8;
      token = rounding;
      is_representable = not (rounding == 0);
    }) in
    (
      record s1 {
        insn = record (s1.insn) {
          is_suppressing_all_exceptions =
              if evex then d.bp else if mvex then flag 2 d.sss else false;
        };
      },
      true,
    )
