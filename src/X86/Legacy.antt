-- ===== src/X86/Legacy.antt =====
-- source/x86/decoder.c, the first part of `decode_entry`: the `switch` over the legacy prefixes, REX,
-- the escapes of the maps and the vector prefixes.
use amed.Base.{
  ℕ, zero, suc, ◌+◌, ◌/◌, Bool, true, false, not, ◌||◌, Option, none, some, [], ◌∷◌, ◌==◌,
  if◌then◌else◌, field, u8,
}
use amed.X86.Names.{
  BytecodeType, map_idx_0f, map_idx_0f0f, map_idx_0f38, map_idx_0f3a, prefix_f2, prefix_f3,
  register_es, register_cs, register_ss, register_ds, register_fs, register_gs,
}
use amed.X86.State.{Internal}
use amed.X86.Fetch.{add_bytecode, peek_byte, advance_byte}
use amed.X86.Prefix.{decode_rex, decode_vex2, decode_vex3, decode_xop, decode_mevex}

-- The map's bytes are recorded from a little-endian number, the opcode before the escape.
unfoldable pub decode_map : Internal → Internal
decode_map s =
    let s1 = advance_byte (record s { mapidx = map_idx_0f }) in
    let plain = (add_bytecode s1 (0x0f ∷ []) BytecodeType.map).0 in
    let escaped = λ (idx : ℕ) (op : ℕ).
      (add_bytecode (advance_byte (record s1 { mapidx = idx })) (op ∷ 0x0f ∷ [])
        BytecodeType.map).0 in
    elim (peek_byte s1) [
      | none ↦ plain
      | some op ↦
          if op == 0x0f
          then escaped map_idx_0f0f 0x0f
          else if op == 0x38
          then escaped map_idx_0f38 0x38
          else if op == 0x3a
          then escaped map_idx_0f3a 0x3a
          else plain
    ]

unfoldable pub set_modrm_field : Internal → ℕ → Internal
set_modrm_field s modrm = record s {
  diagram = record (s.diagram) {
    modrm_mod = field 6 2 modrm;
    reg = field 3 3 modrm;
    rm = field 0 3 modrm;
    modreg = field 6 2 modrm == 3;
    cr = not (field 3 3 modrm == 0);
  };
}

-- `op` is the prefix byte itself, which `add_segment` reads again.
unfoldable pub add_segment : Internal → ℕ → ℕ → Internal
add_segment s op segment =
    let s1 = (add_bytecode (advance_byte s) (op ∷ []) BytecodeType.prefix).0 in
    record s1 {
      insn = record (s1.insn) { is_ugly = not (s1.segment == 0) || s1.insn.is_ugly };
      segment = segment;
    }

-- The last two lines of the cases of a legacy prefix.
unfoldable pub take_prefix : Internal → ℕ → Internal
take_prefix s op = (add_bytecode (advance_byte s) (op ∷ []) BytecodeType.prefix).0

-- What a round of the loop does: `goto reenter`, or `break`.
pub data Round : Type 0 where
  reenter : Internal → Round
  leave : Internal → Round

-- The segment register of an override prefix.
abbrev pub segment_override : ℕ → Option ℕ
segment_override op =
    if op == 0x26
    then some register_es
    else if op == 0x2e
    then some register_cs
    else if op == 0x36
    then some register_ss
    else if op == 0x3e
    then some register_ds
    else if op == 0x64
    then some register_fs
    else if op == 0x65
    then some register_gs
    else none

abbrev pub after_rex : Internal × Bool → Round
after_rex (s, true) = reenter s
after_rex (s, false) = leave s

abbrev pub count_prefix : Internal → Internal
count_prefix s = record s { vfpc = u8 (s.vfpc + 1) }

-- The other cases of the `switch`: an override of the sizes, LOCK, REPNE or REP, the escape of a
-- map, a vector prefix, or an opcode.
unfoldable pub prefix_case : ℕ → ℕ → Internal → ℕ → Round
prefix_case dfopsize dfadsize s op =
    if op == 0x66
    then reenter (
        take_prefix
          (record (count_prefix s) {
            diagram = record (s.diagram) { p66 = true; osz = dfopsize / 2 };
          })
          op)
    else if op == 0x67
    then reenter (take_prefix (record s { diagram = record (s.diagram) { asz = dfadsize / 2 } }) op)
    else if op == 0xf0
    then reenter
        (take_prefix (record (count_prefix s) { diagram = record (s.diagram) { f0 = true } }) op)
    else if op == 0xf2
    then reenter (
        take_prefix
          (record (count_prefix s) {
            last_f_prefix = prefix_f2;
            diagram = record (s.diagram) { f2 = true };
          })
          op)
    else if op == 0xf3
    then reenter (
        take_prefix
          (record (count_prefix s) {
            last_f_prefix = prefix_f3;
            diagram = record (s.diagram) { f3 = true };
          })
          op)
    else if op == 0x0f
    then leave (decode_map s)
    else if op == 0x8f
    then leave (decode_xop s).0
    else if op == 0x62
    then leave (decode_mevex s).0
    else if op == 0xc4
    then leave (decode_vex3 s).0
    else if op == 0xc5
    then leave (decode_vex2 s).0
    else leave s

-- One round, from `reenter`; where no byte is left the loop is left.
unfoldable pub prefix_round : ℕ → ℕ → Internal → Round
prefix_round dfopsize dfadsize s = elim (peek_byte s) [
  | none ↦ leave s
  | some op ↦ if op / 16 == 4 then after_rex (decode_rex s) else elim (segment_override op) [
    | none ↦ prefix_case dfopsize dfadsize s op
    | some segment ↦ reenter (add_segment s op segment)
  ]
]

-- The loop of rounds; `none` means that the fuel ran out.
unfoldable pub prefix_loop : ℕ → ℕ → ℕ → Internal → Option Internal
prefix_loop zero dfopsize dfadsize s = none
prefix_loop (suc fuel) dfopsize dfadsize s = elim (prefix_round dfopsize dfadsize s) [
  | Round.leave s1 ↦ some s1
  | Round.reenter s1 ↦ prefix_loop fuel dfopsize dfadsize s1
]
