-- ===== src/Aarch32/Fields.antt =====
-- source/aarch32/decoder.c: the fields of the opcode and the tables of their values. The loops over
-- the pieces of a field are written as for AArch64.
use amed.Base.{ℕ, ◌+◌, ◌/◌, Option, none, some, ◌==◌, if◌then◌else◌}
use amed.Aarch64.Fields.{pieces_loop}
use amed.Aarch32.Names.{Symbol, register_none, register_r0, register_s0, register_d0, register_q0}
use amed.Aarch32.Database.{Tv, Items, Any, Database}

-- `*pvalue` and the number of bits.
unfoldable pub read_encodedin_value : Database → ℕ → ℕ → ℕ × ℕ
unfolding pieces_loop
read_encodedin_value db opcode ref = pieces_loop opcode (db.encodedins ref) 0 0

-- The first item with the encoding. An item that calls a table gives the search away to it.
unfoldable pub lookup_tv : Items → ℕ → Option Tv
lookup_tv Items.end encoding = none
lookup_tv (Items.call table items) encoding = lookup_tv table encoding
lookup_tv (Items.entry tv items) encoding =
    let rest = lookup_tv items encoding in if tv.encoding == encoding then some tv else rest

-- What decode_any returns, with `*pvalue` and, of a field of the opcode, the number of bits. No caller
-- asks for the item of the table.
pub data AnyValue : Type 0 where
  failed : AnyValue
  plain : ℕ → AnyValue
  encodedin : ℕ → ℕ → AnyValue
  table : ℕ → AnyValue

unfoldable pub decode_any : Database → ℕ → Any → AnyValue
unfolding read_encodedin_value lookup_tv
decode_any db opcode node =
    let (raw, size) = read_encodedin_value db opcode (node.encodedin) in
    if node.has_encodedin
    then elim (node.table) [
      | none ↦ AnyValue.encodedin raw size
      | some items ↦ elim (lookup_tv items raw) [
        | none ↦ AnyValue.failed
        | some tv ↦ AnyValue.table tv.value
      ]
    ]
    else AnyValue.plain (node.value)

-- `*pvalue` of a call that does not fail.
abbrev pub value_of : AnyValue → Option ℕ
value_of AnyValue.failed = none
value_of (AnyValue.plain v) = some v
value_of (AnyValue.encodedin v size) = some v
value_of (AnyValue.table v) = some v

unfoldable pub decode_register_value : ℕ → Symbol → ℕ
decode_register_value raw Symbol.gpr32 = register_r0 + raw
decode_register_value raw Symbol.simd32 = register_s0 + raw
decode_register_value raw Symbol.simd64 = register_d0 + raw
decode_register_value raw Symbol.simd128 = register_q0 + raw / 2
decode_register_value raw _ = register_none
