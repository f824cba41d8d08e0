-- ===== src/X86/Arguments/Swizzle.antt =====
-- source/x86/decoder.c, the swizzles of MVEX.
use amed.Base.{
  ℕ, ◌+◌, ◌*◌, ◌/◌, ◌^◌, Bool, true, false, not, none, some, List, [], ◌∷◌, ◌==◌, if◌then◌else◌,
  get_or, u8,
}
use amed.Base.Int.{mul_ℕ}
use amed.Utils.Datatype.{Datatype, get_datatype_size}
use amed.X86.Database.{SwizzleRow}
use amed.X86.State.{Argument, Internal}
use amed.X86.Arguments.Slots.{argument_at, set_argument}

-- The macro `SELECTORS`: one byte for each element.
abbrev pub selectors : ℕ → ℕ → ℕ → ℕ → ℕ
selectors a b c d = a + b * 2 ^ 8 + c * 2 ^ 16 + d * 2 ^ 24

abbrev swizzle_table : List ℕ
swizzle_table =
    selectors 0 1 2 3
    ∷ selectors 1 0 3 2
    ∷ selectors 2 3 0 1
    ∷ selectors 1 2 0 3
    ∷ selectors 0 0 0 0
    ∷ selectors 1 1 1 1
    ∷ selectors 2 2 2 2
    ∷ selectors 3 3 3 3
    ∷ []

unfoldable pub decode_node_swz_reg : Internal → Internal × Bool
decode_node_swz_reg s = elim (s.vreg) [
  | none ↦ (s, true)
  | some v ↦ (
    set_argument s v (record (argument_at s v) {
      reg_index = get_or swizzle_table s.diagram.sss 0;
      has_index = true;
      print_index = not (s.diagram.sss == 0);
    }),
    true,
  )
]

-- The memory argument with the data types and the size of a row.
unfoldable pub swizzled_size : SwizzleRow → Argument → ℕ
swizzled_size row a = if a.size == 0 then get_datatype_size row.mdt * row.nelem else a.size

unfoldable pub retype_memory : SwizzleRow → Argument → Argument
retype_memory row a = record a {
  datatype = row.mdt;
  size = swizzled_size row a;
  mem = record (a.mem) { vdatatype = if row.converting then row.vdt else Datatype.none };
}

-- The compressed displacement is scaled by the element's or the whole size, in bytes.
unfoldable pub scale_memory : Internal → SwizzleRow → Argument → Argument
scale_memory s row a =
    let esize = get_datatype_size row.mdt in
    let disp8n = (if s.ptemplate.egran then esize else a.size) / 8 in
    let counted = record a { number_of_elements = u8 (a.size / esize) } in
    if s.uses_compressed_disp
    then record counted {
      mem = record (a.mem) {
        immoff_datatype = Datatype.s16;
        immoff_value = mul_ℕ a.mem.immoff_value disp8n;
      };
    }
    else counted

unfoldable pub broadcast_memory : ℕ → Argument → Argument
broadcast_memory vesize a = record a {
  print_broadcasting = true;
  mem = record (a.mem) {
    broadcasting_from = a.number_of_elements;
    broadcasting_to = u8 (512 / vesize);
  };
}

-- The last branch of the source, which writes `vdatatype` again, changes nothing.
unfoldable pub decode_node_swz_mem : Internal → (ℕ → SwizzleRow) → Internal × Bool
decode_node_swz_mem s table =
    let row = table s.diagram.sss in
    let esize = get_datatype_size row.mdt in
    let vesize = get_datatype_size row.vdt in
    elim (s.vmem) [
      | none ↦ (s, true)
      | some v ↦
          let retyped = retype_memory row (argument_at s v) in
          let scaled = scale_memory s row retyped in
          if row.reserved
          then (record s { insn = record (s.insn) { is_undefined = true } }, true)
          else if esize == 0
          then (set_argument s v retyped, false)
          else if not row.broadcasting
          then (set_argument s v scaled, true)
          else if vesize == 0
          then (set_argument s v scaled, false)
          else (set_argument s v (broadcast_memory vesize scaled), true)
    ]
