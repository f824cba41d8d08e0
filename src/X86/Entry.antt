-- ===== src/X86/Entry.antt =====
-- source/x86/decoder.c, `decode_entry` after the prefixes, and `amed_x86_decode_insn`.
use amed.Base.{
  ℕ, ◌+◌, ◌/◌, ◌%◌, ◌^◌, Bool, true, false, not, ◌&&◌, ◌||◌, Option, none, some, [], ◌∷◌, ◌==◌,
  if◌then◌else◌, u8,
}
use amed.X86.Names.{BytecodeType, encoding_none, map_idx_none, map_idx_0f0f}
use amed.X86.Database.{Database}
use amed.X86.Diagram.{hashcode, set_hashcode, clear_attributes}
use amed.X86.State.{Insn, Internal}
use amed.X86.Fetch.{add_bytecode, peek_byte, advance_byte}
use amed.X86.Modrm.{decode_modrm}
use amed.X86.Nodes.{decode_template}
use amed.X86.Legacy.{set_modrm_field, prefix_loop}

-- `amed_machine_mode`; `other` is a mode that x86 does not have.
pub data MachineMode : Type 0 where
  mode16 mode32 mode64 other : MachineMode

abbrev pub default_osz : MachineMode → ℕ
default_osz MachineMode.mode16 = 0
default_osz _ = 1

abbrev pub default_asz : MachineMode → ℕ
default_asz MachineMode.mode16 = 0
default_asz MachineMode.mode64 = 2
default_asz _ = 1

abbrev pub is_long : MachineMode → Bool
is_long MachineMode.mode64 = true
is_long _ = false

abbrev pub is_other : MachineMode → Bool
is_other MachineMode.other = true
is_other _ = false

-- The initialization of `decode_entry`, up to the loop of prefixes.
unfoldable pub start_entry : MachineMode → ℕ → Internal → Internal
start_entry mode features s =
    let d = set_hashcode features (clear_attributes s.diagram) in
    record s {
      vfpc = 0;
      mapidx = map_idx_none;
      segment = 0;
      last_f_prefix = 0;
      has_base = false;
      has_index = false;
      uses_compressed_disp = false;
      vreg = none;
      vmem = none;
      src_reg = none;
      diagram = record d {
        long_mode = is_long mode || d.long_mode;
        asz = default_asz mode;
        osz = default_osz mode;
      };
    }

-- The opcode, after the ModRM byte and its operands for 3DNow! and before them for all else; there
-- a ModRM byte is looked at, and is 0 if no byte is left.
unfoldable pub read_3dnow : Internal → ℕ × Internal × Bool
read_3dnow s = elim (peek_byte s) [
  | none ↦ (0, s, false)
  | some modrm ↦
      let (s1, ok) = decode_modrm (set_modrm_field s modrm) in
      if not ok
      then (0, s1, false)
      else elim (peek_byte s1) [ none ↦ (0, s1, false) | some op ↦ (op, advance_byte s1, true) ]
]

unfoldable pub read_plain : Internal → ℕ × Internal × Bool
read_plain s = elim (peek_byte s) [
  | none ↦ (0, s, false)
  | some op ↦
      let s1 = advance_byte s in
      elim (peek_byte s1) [
        | none ↦ (op, set_modrm_field s1 0, true)
        | some modrm ↦ (op, set_modrm_field s1 modrm, true)
      ]
]

unfoldable pub read_opcode : Internal → ℕ × Internal × Bool
read_opcode s = if s.mapidx == map_idx_0f0f then read_3dnow s else read_plain s

-- The opcode's record, and the fields that the hash code has of the sizes.
unfoldable pub set_opcode : Internal → ℕ → Internal
set_opcode s op =
    let s1 = (add_bytecode s (op ∷ []) BytecodeType.opcode).0 in
    record s1 {
      diagram = record (s1.diagram) {
        opcode = op;
        yasz = s1.diagram.asz == 1 || s1.diagram.asz == 2 || s1.diagram.yasz;
      };
    }

unfoldable pub set_sizes : Internal → Internal
set_sizes s =
    let d = s.diagram in
    if d.enc == encoding_none
    then (let osz = if d.w then 2 else d.osz in
        record s {
          diagram = record d {
            osz = osz;
            zosz = osz == 0 || osz == 1 || d.zosz;
            yosz = osz == 1 || osz == 2 || d.yosz;
            len = osz % 4;
          };
        })
    else record s {
      diagram = record d { len = d.vl % 4 };
      insn = record (s.insn) { is_undefined = s.insn.is_undefined || not (s.vfpc == 0) };
    }

-- The encoding and the template that the lookup gives. A template can force or default to 64 bits.
unfoldable pub find_encoding : Database → Internal → ℕ → Internal
find_encoding db s op =
    let found = db.lookup (s.mapidx + op) (hashcode s.diagram) in
    let iencoding = found / 2 ^ 16 in
    record s {
      iencoding = iencoding;
      encoding = db.encodings iencoding;
      ptemplate = db.templates (found % 2 ^ 16);
      insn = record (s.insn) { is_undefined = s.insn.is_undefined || iencoding == 0 };
    }

unfoldable pub force_osz : Internal → Internal
force_osz s =
    let d = s.diagram in
    if d.long_mode && not (d.osz == 2)
    then if s.ptemplate.f64
      then record s { diagram = record d { osz = 2 } }
      else if s.ptemplate.d64
      then record s { diagram = record d { osz = if d.p66 then 1 else 2 } }
      else s
    else s

-- The ModRM byte of an encoding that has one; the result of `decode_modrm` is not looked at.
unfoldable pub read_operands : Internal → Internal
read_operands s =
    if s.encoding.has_modrm
    then (if s.mapidx == map_idx_0f0f then s else (decode_modrm s).0)
    else record s { diagram = record (s.diagram) { modrm_mod = 0; reg = 0; rm = 0 } }

-- From the opcode to the arguments; the result of `decode_template` is not looked at.
unfoldable pub decode_opcode : Database → Internal → ℕ → Internal
decode_opcode db s op =
    let s1 = read_operands (force_osz (find_encoding db (set_sizes (set_opcode s op)) op)) in
    (decode_template db s1 s1.ptemplate).0

-- A round of prefixes takes a byte, so 256 rounds are enough for the at most 255 bytes.
abbrev pub prefix_fuel : ℕ
prefix_fuel = 256

unfoldable pub decode_entry : Database → MachineMode → ℕ → Internal → Option (Internal × Bool)
decode_entry db mode features s =
    if is_other mode
    then some (s, false)
    else elim (prefix_loop prefix_fuel (default_osz mode) (default_asz mode)
        (start_entry mode features s)) [
          | none ↦ none
          | some s1 ↦
              let (op, s2, ok) = read_opcode s1 in
              if ok then some (decode_opcode db s2 op, true) else some (s2, false)
        ]

-- `pinsn->attributes = 0`.
unfoldable pub clear_insn : Insn → Insn
clear_insn i = record i {
  is_undefined = false;
  is_unpredictable = false;
  is_ugly = false;
  is_vector = false;
  is_predicated = false;
  is_atomic = false;
  is_acquiring = false;
  is_releasing = false;
  is_suppressing_all_exceptions = false;
  is_constructive = false;
  is_destructive = false;
  may_branch = false;
  may_load = false;
  may_store = false;
}

-- The context's `length` is an `int32_t`, here not negative, and is cut to the 8 bits of `nb`.
-- `s` holds what stands in `x86_internal` and in the insn before.
unfoldable pub amed_x86_decode_insn :
    Database → MachineMode → ℕ → ℕ → Internal → Option (Internal × Bool)
amed_x86_decode_insn db mode features length s =
    if length == 0
    then some (s, false)
    else elim (decode_entry db mode features
        (record s { nb = u8 length; pc = 0; insn = clear_insn s.insn })) [
          | none ↦ none
          | some (s1, ok) ↦ some (record s1 { insn = record (s1.insn) { length = s1.pc } }, ok)
        ]
