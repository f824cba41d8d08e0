-- ===== src/Aarch32/Arguments/Labels.antt =====
-- source/aarch32/decoder.c, decode_arg_label.
pub mod Jump
use amed.Base.{
  ℕ, ◌+◌, ◌-◌, ◌*◌, ◌/◌, ◌%◌, ◌^◌, Bool, true, ◌||◌, Option, none, some, leb, ltb, ◌==◌,
  if◌then◌else◌, u32, field, bit_or, bit_xor,
}
use amed.Base.Int.{pattern64}
use amed.Utils.Binary.{sign_extend64}
use amed.Utils.Datatype.{Datatype}
use amed.Aarch32.Names.{Symbol}
use amed.Aarch32.Database.{Any, Database}
use amed.Aarch32.State.{ArgumentType, Argument, Internal, Result}
use amed.Aarch32.Fields.{read_encodedin_value}
use amed.Aarch32.Immediates.{decode_a32_imm}

-- `-imm.s64`, as a pattern of 64 bits.
abbrev pub negate64 : ℕ → ℕ
negate64 v = (2 ^ 64 - v) % 2 ^ 64

-- `!(bit ^ s)`.
abbrev pub same_as : ℕ → ℕ → ℕ
same_as s bit = if bit_xor bit s == 0 then 1 else 0

-- The case of `labelj`, up to the fall through. It needs a third bit.
unfoldable pub join_bits : ℕ → ℕ → ℕ
join_bits nb value =
    let s = value / 2 ^ (nb - 1) in
    let i1 = same_as s (field (nb - 2) 1 value) in
    let i2 = same_as s (field (nb - 3) 1 value) in
    let cleared = value - field (nb - 3) 2 value * 2 ^ (nb - 3) in
    bit_or cleared (bit_or (i1 / 2 ^ (nb - 2)) (i2 / 2 ^ (nb - 3)))

-- A label with its data type.
abbrev set_label : Internal → Argument → Datatype → ℕ → Result
set_label s a dt imm = Result.decoded s (record a { imm = imm; datatype = dt })

-- The case of `label`.
unfoldable pub plain_label : Internal → Argument → Any → ℕ → ℕ → ℕ → Result
plain_label s a node scale nb value =
    if node.signpos
    then elim (sign_extend64 value (nb - 1)) [
      | none ↦ Result.undefined
      | some v ↦ set_label s a Datatype.s32 (pattern64 v * scale % 2 ^ 64)
    ]
    else set_label s a Datatype.u32 (value * scale % 2 ^ 64)

-- The `switch` on the symbol.
unfoldable pub label_symbol : Internal → Argument → Any → ℕ → ℕ → ℕ → Symbol → Result
label_symbol s a node scale nb value Symbol.plabel =
    set_label s a Datatype.u32 (u32 (value * scale))
label_symbol s a node scale nb value Symbol.nlabel =
    set_label s a Datatype.s32 (negate64 (u32 (value * scale)))
label_symbol s a node scale nb value Symbol.plabela = elim (decode_a32_imm value) [
  | none ↦ Result.undefined
  | some v ↦ set_label s a Datatype.u32 v
]
label_symbol s a node scale nb value Symbol.nlabela = elim (decode_a32_imm value) [
  | none ↦ Result.undefined
  | some v ↦ set_label s a Datatype.s32 (negate64 v)
]
label_symbol s a node scale nb value Symbol.labelj =
    if ltb nb 3 then Result.undefined else plain_label s a node scale nb (join_bits nb value)
label_symbol s a node scale nb value Symbol.label = plain_label s a node scale nb value
label_symbol s a node scale nb value _ = Result.failed s a

-- The sign is shifted out first, which is undefined for a field of no bits and of more than 32.
unfoldable pub decode_arg_label : Database → Internal → Argument → Any → Result
decode_arg_label db s a node =
    let a1 = record a { kind = ArgumentType.label; datatype = Datatype.u32; imm = 0 } in
    let (value, nb) = read_encodedin_value db (s.opcode) (node.encodedin) in
    let scale = if node.scale == 0 then 1 else node.scale in
    if nb == 0 || leb 33 nb
    then Result.undefined
    else label_symbol s a1 node scale nb value (node.symbol)
