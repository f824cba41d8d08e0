-- ===== src/Aarch64/Fields.antt =====
-- source/aarch64/decoder.c: the bit mask immediate, the fields of the opcode and the tables of
-- their values.
pub mod Logimm
use amed.Base.{
  ℕ, zero, suc, ◌+◌, ◌-◌, ◌*◌, ◌/◌, ◌%◌, ◌^◌, Bool, Option, none, some, List, [], ◌∷◌, bit_or,
  bit_and, ltb, leb, ◌&&◌, ◌==◌, if◌then◌else◌, u32, field, get_or,
}
use amed.Base.Text.{◌>>=◌}
use amed.Utils.Binary.{replicate64, ror64, get_masked_value, get_hi_bit_pos}
use amed.Aarch64.Names.{
  Symbol, Vdt, register_none, register_w0, register_x0, register_b0, register_h0, register_s0,
  register_d0, register_q0, register_v0, register_z0, register_p0,
}
use amed.Aarch64.Database.{Piece, Tv, Items, Any, RegInfo, Database}

-- The lanes of the vector, the lowest first, as one number.
unfoldable pub lanes : ℕ → ℕ → ℕ → ℕ
lanes zero esize eimm = 0
lanes (suc number) esize eimm = eimm % 2 ^ esize + 2 ^ esize * lanes number esize eimm

-- The number of lanes for an element of `2 ^ len` bits; `len < 1` is refused.
abbrev pub lane_count : ℕ → ℕ → Option ℕ
lane_count len datasize =
    if leb 1 len && leb (datasize / 2 ^ len * 2 ^ len) 64 then some (datasize / 2 ^ len) else none

-- The element: `s + 1` ones, rotated by `r`, both cut to the element's size.
unfoldable pub logimm_element : ℕ → ℕ → ℕ → Option ℕ
logimm_element len s r = do
  emask ← replicate64 1 len
  ones ← replicate64 1 (bit_and s emask + 1)
  ror64 ones (bit_and r emask) (2 ^ len)

-- The immediate, where there is one. `none` too are more lanes than 64 bits have, which C leaves
-- undefined.
unfoldable pub decode_logimm : ℕ → ℕ → Option ℕ
decode_logimm n_imms_immr datasize =
    let n = field 12 1 n_imms_immr in
    let s = field 6 6 n_imms_immr in
    let r = field 0 6 n_imms_immr in
    let ds = if datasize == 0 then if n == 1 then 64 else 32 else datasize in
    do
      len ← get_hi_bit_pos (bit_or (n * 2 ^ 6) (63 - s))
      number ← lane_count len ds
      eimm ← logimm_element len s r
      some (lanes number (2 ^ len) eimm)

-- The bits of the opcode under a mask; the loop always ends.
abbrev pub masked : ℕ → ℕ → ℕ
masked opcode mask = elim (get_masked_value opcode mask) [ none ↦ 0 | some v ↦ v ]

unfoldable pub pieces_loop : ℕ → List Piece → ℕ → ℕ → ℕ × ℕ
unfolding get_masked_value
pieces_loop opcode [] result gsize = (result, gsize)
pieces_loop opcode (p ∷ ps) result gsize =
    pieces_loop opcode ps (bit_or (u32 (result * 2 ^ p.size)) (masked opcode p.mask))
      (gsize + p.size)

-- `*pvalue` and the number of bits.
unfoldable pub read_encodedin_value : Database → ℕ → ℕ → ℕ × ℕ
unfolding pieces_loop
read_encodedin_value db opcode ref = pieces_loop opcode (db.encodedins ref) 0 0

-- A register of the scalable vector extension has the size that the context says.
unfoldable pub get_register_size : Database → ℕ → ℕ → Option ℕ
get_register_size db vector_size value =
    let info = db.reginfo value in
    if info.size == 0
    then elim (info.kind) [
      | Symbol.svereg ↦ some vector_size
      | Symbol.prdreg ↦ some (vector_size / 8)
      | _ ↦ none
    ]
    else some (info.size)

-- The first item with the encoding. An item that calls a table gives the search away to it.
unfoldable pub lookup_tv : Items → ℕ → Option Tv
lookup_tv Items.end encoding = none
lookup_tv (Items.call table items) encoding = lookup_tv table encoding
lookup_tv (Items.entry tv items) encoding =
    let rest = lookup_tv items encoding in if tv.encoding == encoding then some tv else rest

unfoldable pub decode_register_value : ℕ → Symbol → ℕ
decode_register_value raw Symbol.gpr32 = register_w0 + raw % 32
decode_register_value raw Symbol.gpr64 = register_x0 + raw % 32
decode_register_value raw Symbol.simd8 = register_b0 + raw
decode_register_value raw Symbol.simd16 = register_h0 + raw
decode_register_value raw Symbol.simd32 = register_s0 + raw
decode_register_value raw Symbol.simd64 = register_d0 + raw
decode_register_value raw Symbol.simd128 = register_q0 + raw
decode_register_value raw Symbol.vecreg = register_v0 + raw
decode_register_value raw Symbol.svereg = register_z0 + raw
decode_register_value raw Symbol.prdreg = register_p0 + raw
decode_register_value raw _ = register_none

unfoldable pub get_number_of_elements_from_vdt : Vdt → ℕ
get_number_of_elements_from_vdt Vdt.v16b = 16
get_number_of_elements_from_vdt Vdt.v1d = 1
get_number_of_elements_from_vdt Vdt.v1q = 1
get_number_of_elements_from_vdt Vdt.v2d = 2
get_number_of_elements_from_vdt Vdt.v2h = 2
get_number_of_elements_from_vdt Vdt.v2s = 2
get_number_of_elements_from_vdt Vdt.v4b = 4
get_number_of_elements_from_vdt Vdt.v4h = 4
get_number_of_elements_from_vdt Vdt.v4s = 4
get_number_of_elements_from_vdt Vdt.v8b = 8
get_number_of_elements_from_vdt Vdt.v8h = 8
get_number_of_elements_from_vdt Vdt.none = 0
get_number_of_elements_from_vdt _ = 1

unfoldable pub get_element_size_from_vdt : Vdt → ℕ
get_element_size_from_vdt Vdt.v16b = 8
get_element_size_from_vdt Vdt.v1d = 64
get_element_size_from_vdt Vdt.v1q = 128
get_element_size_from_vdt Vdt.v2d = 64
get_element_size_from_vdt Vdt.v2h = 16
get_element_size_from_vdt Vdt.v2s = 32
get_element_size_from_vdt Vdt.v4b = 8
get_element_size_from_vdt Vdt.v4h = 16
get_element_size_from_vdt Vdt.v4s = 32
get_element_size_from_vdt Vdt.v8b = 8
get_element_size_from_vdt Vdt.v8h = 16
get_element_size_from_vdt Vdt.vb = 8
get_element_size_from_vdt Vdt.vd = 64
get_element_size_from_vdt Vdt.vh = 16
get_element_size_from_vdt Vdt.vq = 128
get_element_size_from_vdt Vdt.vs = 32
get_element_size_from_vdt Vdt.none = 0

-- What decode_any returns, with `*pvalue`, the item of the table, or the number of bits.
pub data AnyValue : Type 0 where
  failed : AnyValue
  plain : ℕ → AnyValue
  encodedin : ℕ → ℕ → AnyValue
  table : Tv → AnyValue

unfoldable pub decode_any : Database → ℕ → Any → AnyValue
unfolding read_encodedin_value lookup_tv
decode_any db opcode node =
    let (raw, size) = read_encodedin_value db opcode (node.encodedin) in
    if node.has_encodedin
    then elim (node.table) [
      | none ↦ AnyValue.encodedin raw size
      | some items ↦ elim (lookup_tv items raw) [
        | none ↦ AnyValue.failed
        | some tv ↦ AnyValue.table tv
      ]
    ]
    else AnyValue.plain (node.value)

-- `*pvalue` of a call that does not fail.
abbrev pub value_of : AnyValue → Option ℕ
value_of AnyValue.failed = none
value_of (AnyValue.plain v) = some v
value_of (AnyValue.encodedin v size) = some v
value_of (AnyValue.table tv) = some (tv.value)
