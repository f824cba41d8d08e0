-- ===== src/X86/Register.antt =====
-- source/x86/decoder.c, `decode_node_register_value`: the register of a node.
pub mod Number
use amed.Base.{
  ℕ, ◌+◌, ◌-◌, ◌*◌, ◌/◌, ◌%◌, ◌^◌, Bool, true, false, not, ◌&&◌, ◌||◌, Option, none, some, List, [],
  ◌∷◌, bit_or, ◌==◌, ltb, leb, if◌then◌else◌, get_or, field, bit,
}
use amed.Base.Int.{ℤ, pos, negsuc}
use amed.X86.Names
use amed.X86.Names.{
  BytecodeType, register_none, register_al, register_bpl, register_spl, register_ax, register_sp,
  register_bp, register_eax, register_esp, register_ebp, register_rax, register_rsp, register_rbp,
  register_es, register_cs, register_ss, register_ds, register_st0, register_mm0, register_xmm0,
  register_ymm0, register_zmm0, register_k0, register_bnd0, register_cr0, register_dr0, register_ip,
  register_eip, register_rip,
}
use amed.X86.Symbols.{
  symbol_none, symbol_axa, symbol_ipa, symbol_axv, symbol_ipv, symbol_gpra, symbol_gprv,
  symbol_gpry, symbol_gprz, symbol_gpr8, symbol_gpr16, symbol_gpr32, symbol_gpr64, symbol_segreg,
  symbol_fpreg, symbol_mmxreg, symbol_dreg, symbol_creg, symbol_maskreg, symbol_xmmreg,
  symbol_ymmreg, symbol_zmmreg, symbol_bndreg, symbol_vmx, symbol_vmy, symbol_vmz, encodedin_reg,
  encodedin_rm, encodedin_aaa, encodedin_vvvv, encodedin_sib_base, encodedin_sib_index,
  encodedin_opcode, encodedin_is4,
}
use amed.X86.Database.{RegNode}
use amed.X86.Diagram.{Diagram}
use amed.X86.State.{Internal}
use amed.X86.Fetch.{add_bytecode, peek_byte, advance_byte}

-- `amed_x86_widths_array`, from source/x86/include/widths.inc.
abbrev widths_array : List (List ℕ)
widths_array =
    (0 ∷ 0 ∷ 0 ∷ [])
    ∷ (16 ∷ 32 ∷ 64 ∷ [])
    ∷ (32 ∷ 32 ∷ 64 ∷ [])
    ∷ (16 ∷ 32 ∷ 32 ∷ [])
    ∷ (32 ∷ 48 ∷ 48 ∷ [])
    ∷ (32 ∷ 48 ∷ 80 ∷ [])
    ∷ (80 ∷ 160 ∷ 320 ∷ [])
    ∷ (48 ∷ 48 ∷ 80 ∷ [])
    ∷ (32 ∷ 64 ∷ 128 ∷ [])
    ∷ (128 ∷ 128 ∷ 256 ∷ [])
    ∷ (16 ∷ 32 ∷ 64 ∷ [])
    ∷ []

-- A size that is not negative stands for itself, another for a row of the widths.
unfoldable pub get_real_size : ℤ → ℕ → ℕ
get_real_size (pos n) scale = n
get_real_size (negsuc n) scale = get_or (get_or widths_array (n + 1) []) scale 0

abbrev is_stack_register : ℕ → Bool
is_stack_register base =
    base == register_bp
    || base == register_bpl
    || base == register_ebp
    || base == register_rbp
    || base == register_sp
    || base == register_spl
    || base == register_esp
    || base == register_rsp

abbrev is_instruction_pointer : ℕ → Bool
is_instruction_pointer base = base == register_ip || base == register_eip || base == register_rip

unfoldable pub get_default_base_segment : ℕ → ℕ
get_default_base_segment base =
    if is_stack_register base
    then register_ss
    else if is_instruction_pointer base
    then register_cs
    else register_ds

-- `index_n` and its kin, `base_s` and `base_r`.
abbrev encoded_node : ℕ → ℕ → RegNode
encoded_node symbol encodedin = record {
  datatype = amed.Utils.Datatype.Datatype.none;
  symbol = symbol;
  read = false;
  write = false;
  conditional_reading = false;
  conditional_writing = false;
  suppressed = false;
  zeroing = false;
  has_encodedin = true;
  value = encodedin;
}

abbrev pub base_s : RegNode
base_s = encoded_node symbol_gpra encodedin_sib_base

abbrev pub base_r : RegNode
base_r = encoded_node symbol_gpra encodedin_rm

unfoldable pub get_node_index : ℕ → RegNode
get_node_index symbol =
    if symbol == symbol_vmx
    then encoded_node symbol_xmmreg encodedin_sib_index
    else if symbol == symbol_vmy
    then encoded_node symbol_ymmreg encodedin_sib_index
    else if symbol == symbol_vmz
    then encoded_node symbol_zmmreg encodedin_sib_index
    else encoded_node symbol_gpra encodedin_sib_index

-- The byte that an IS4 operand shares, which is read once; where no byte is left it is 0.
unfoldable pub get_is4_value : Internal → ℕ × Internal
get_is4_value s = if s.diagram.has_is4 then (s.diagram.is4, s) else elim (peek_byte s) [
  | none ↦ (0, s)
  | some is4 ↦
      let s1 = record s { diagram = record (s.diagram) { is4 = is4 } } in
      let s2 = (add_bytecode (advance_byte s1) (is4 ∷ []) BytecodeType.imm).0 in
      (is4, record s2 { diagram = record (s2.diagram) { has_is4 = true } })
]

-- `idx`, `extension` and `extension2`.
pub record Index : Type 0 where
  pub idx : ℕ
  pub extension : ℕ
  pub extension2 : ℕ

-- The first `switch`, but for IS4.
unfoldable pub encoded_index : ℕ → Diagram → Index
encoded_index encodedin d =
    if encodedin == encodedin_opcode
    then record { idx = d.opcode % 8; extension = bit d.b * 8; extension2 = 0 }
    else if encodedin == encodedin_reg
    then record { idx = d.reg; extension = bit d.r * 8; extension2 = bit d.rp * 16 }
    else if encodedin == encodedin_rm
    then record { idx = d.rm; extension = bit d.b * 8; extension2 = bit d.x * 16 }
    else if encodedin == encodedin_sib_base
    then record { idx = d.base; extension = bit d.b * 8; extension2 = 0 }
    else if encodedin == encodedin_sib_index
    then record { idx = d.index; extension = bit d.x * 8; extension2 = bit d.vp * 16 }
    else if encodedin == encodedin_aaa
    then record { idx = d.aaa; extension = 0; extension2 = 0 }
    else if encodedin == encodedin_vvvv
    then record { idx = d.vvvv; extension = bit d.vp * 16; extension2 = 0 }
    else record { idx = 0; extension = 0; extension2 = 0 }

abbrev is4_index : ℕ → Index
is4_index is4 = record { idx = is4 / 2 ^ 4; extension = 0; extension2 = 0 }

-- Outside 64-bit mode there is no extension.
unfoldable pub mode_index : Bool → Index → Index
mode_index long_mode i = if long_mode then i else record i { extension = 0; extension2 = 0 }

abbrev vosz2gpr : List ℕ
vosz2gpr = symbol_gpr16 ∷ symbol_gpr32 ∷ symbol_gpr64 ∷ []

abbrev yosz2gpr : List ℕ
yosz2gpr = symbol_gpr32 ∷ symbol_gpr32 ∷ symbol_gpr64 ∷ []

abbrev zosz2gpr : List ℕ
zosz2gpr = symbol_gpr16 ∷ symbol_gpr32 ∷ symbol_gpr32 ∷ []

-- The cases of the second `switch` that go on to `reenter`: the symbol there, and the index.
unfoldable pub scaled_symbol : ℕ → ℕ → ℕ → ℕ → ℕ × ℕ
scaled_symbol symbol idx asz osz =
    if leb symbol_axa symbol && leb symbol symbol_ipa
    then (get_or vosz2gpr asz symbol_none, symbol - symbol_axa)
    else if leb symbol_axv symbol && leb symbol symbol_ipv
    then (get_or vosz2gpr osz symbol_none, symbol - symbol_axv)
    else if symbol == symbol_gpra
    then (get_or vosz2gpr asz symbol_none, idx)
    else if symbol == symbol_gprv
    then (get_or vosz2gpr osz symbol_none, idx)
    else if symbol == symbol_gpry
    then (get_or yosz2gpr osz symbol_none, idx)
    else if symbol == symbol_gprz
    then (get_or zosz2gpr osz symbol_none, idx)
    else (symbol, idx)

-- The byte registers under a REX prefix.
abbrev r8rex : List ℕ
r8rex = 1 ∷ 2 ∷ 3 ∷ 4 ∷ 9 ∷ 10 ∷ 11 ∷ 12 ∷ 13 ∷ 14 ∷ 15 ∷ 16 ∷ 17 ∷ 18 ∷ 19 ∷ 20 ∷ []

-- The cases that return a register; the last is the function's `return true`.
unfoldable pub class_register : ℕ → Index → Bool → ℕ → ℕ
class_register symbol i has_rex value =
    let near = bit_or i.idx i.extension in
    let far = bit_or near i.extension2 in
    if symbol == symbol_none
    then value
    else if symbol == symbol_gpr8
    then (if has_rex then get_or r8rex near register_none else register_al + i.idx)
    else if symbol == symbol_gpr16
    then register_ax + near
    else if symbol == symbol_gpr32
    then register_eax + near
    else if symbol == symbol_gpr64
    then register_rax + near
    else if symbol == symbol_segreg
    then (if ltb 5 i.idx then register_none else register_es + i.idx)
    else if symbol == symbol_fpreg
    then register_st0 + i.idx
    else if symbol == symbol_mmxreg
    then register_mm0 + i.idx
    else if symbol == symbol_dreg
    then register_dr0 + near
    else if symbol == symbol_creg
    then register_cr0 + near
    else if symbol == symbol_maskreg
    then register_k0 + i.idx
    else if symbol == symbol_xmmreg
    then register_xmm0 + far
    else if symbol == symbol_ymmreg
    then register_ymm0 + far
    else if symbol == symbol_zmmreg
    then register_zmm0 + far
    else if symbol == symbol_bndreg
    then register_bnd0 + i.idx
    else 1

-- The register of a node whose index is found.
unfoldable pub indexed_register : RegNode → Index → Diagram → ℕ
indexed_register n i d =
    let j = mode_index d.long_mode i in
    let (symbol, idx) = scaled_symbol n.symbol j.idx d.asz d.osz in
    class_register symbol (record j { idx = idx }) d.has_rex n.value

unfoldable pub decode_node_register_value : Internal → RegNode → ℕ × Internal
decode_node_register_value s n =
    if not n.has_encodedin
    then (n.value, s)
    else if n.value == encodedin_is4
    then (let (is4, s1) = get_is4_value s in (indexed_register n (is4_index is4) s.diagram, s1))
    else (indexed_register n (encoded_index n.value s.diagram) s.diagram, s)
