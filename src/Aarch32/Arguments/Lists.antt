-- ===== src/Aarch32/Arguments/Lists.antt =====
-- source/aarch32/decoder.c, the lists of registers. A list has room for 32; a store past its end is
-- undefined.
pub mod Registers
use amed.Base.{
  ℕ, zero, suc, ◌+◌, ◌-◌, ◌*◌, ◌/◌, ◌%◌, ◌^◌, Bool, true, false, not, ◌&&◌, ◌||◌, Option, none,
  some, List, [], ◌∷◌, leb, ltb, ◌==◌, if◌then◌else◌, u8, u16, u32, flag, length, get_or,
}
use amed.Utils.Datatype.{Datatype}
use amed.Aarch32.Names.{register_r0, register_pc, register_d0, register_q0, register_q16}
use amed.Aarch32.Database.{Any, ListNode, VectorListNode, Database}
use amed.Aarch32.State.{ArgumentType, Argument, Internal, Result, ◌andthen◌, unpredictable}
use amed.Aarch32.Fields.{read_encodedin_value, decode_any, value_of}
use amed.Aarch32.Arguments.Registers.{decode_arg_reg}
use amed.Aarch32.Arguments.Memory.{decode_anynymous_immreg}

abbrev pub list_datatype : Datatype → Datatype
list_datatype Datatype.none = Datatype.i32
list_datatype datatype = datatype

-- What all of these functions store in the end, where the registers fit.
unfoldable pub set_list : Internal → Argument → List ℕ → Result
set_list s a registers =
    if leb (length registers) 32
    then Result.decoded s (record a {
      kind = ArgumentType.list;
      list_registers = registers;
      list_count = length registers;
    })
    else Result.undefined

-- The data type and the access of a list that one field encodes.
abbrev pub set_access : Argument → Any → Argument
set_access a node = record a {
  read = node.read;
  write = node.write;
  datatype = list_datatype (node.datatype);
  number_of_elements = 1;
}

abbrev pub branches : Internal → Bool → Internal
branches s b = record s { insn = record (s.insn) { may_branch = s.insn.may_branch || b } }

unfoldable pub decode_arg_slist : Database → Internal → Argument → Any → Result
decode_arg_slist db s a node =
    let (raw, size) = read_encodedin_value db (s.opcode) (node.encodedin) in
    let register = u16 (if node.has_encodedin then register_r0 + raw else node.value) in
    set_list (branches s (node.write && register == register_pc)) (set_access a node)
      (register ∷ [])

-- The `while` over the bits, from bit `i` on: `n` rounds are enough for a number below 2 ^ n.
unfoldable pub bits_loop : ℕ → ℕ → ℕ → List ℕ
bits_loop zero raw i = []
bits_loop (suc n) raw i =
    let rest = bits_loop n (raw / 2) (i + 1) in
    if raw == 0 then [] else if raw % 2 == 1 then u16 (i + register_r0) ∷ rest else rest

-- A field has at most 32 bits.
unfoldable pub decode_arg_glist : Database → Internal → Argument → Any → Result
decode_arg_glist db s a node =
    let (raw, size) = read_encodedin_value db (s.opcode) (node.encodedin) in
    set_list (branches s (flag 15 raw && node.write)) (set_access a node) (bits_loop 32 raw 0)

-- The `while` of decode_arg_fslist and decode_arg_fdlist: `count` registers from `base` on, and whether
-- it stops before `limit`.
unfoldable pub registers_loop : ℕ → ℕ → ℕ → List ℕ × Bool
registers_loop limit zero base = ([], false)
registers_loop limit (suc count) base =
    let rest = registers_loop limit count (base + 1) in
    if base == limit then ([], true) else (u16 base ∷ rest.0, rest.1)

-- Half of an `int`, rounded towards 0, as patterns of 32 bits.
abbrev pub half_int : ℕ → ℕ
half_int v = if flag 31 v then u32 (2 ^ 32 - (2 ^ 32 - v) / 2) else v / 2

-- What follows the base: an empty list is unpredictable, and so is one that stops.
unfoldable pub base_list : ℕ → Internal → Argument → ℕ → Result
base_list limit s a count =
    let (registers, stopped) = registers_loop limit count (a.reg_value) in
    set_list (unpredictable s (count == 0 || stopped)) (record a { number_of_elements = 1 })
      registers

unfoldable pub decode_arg_fslist : Database → Internal → Argument → ListNode → Result
decode_arg_fslist db s a node = decode_arg_reg db s a (node.base) andthen λ s1 a1.
    elim (value_of (decode_any db (s1.opcode) (node.count))) [
      | none ↦ Result.failed s1 a1
      | some count ↦ base_list register_d0 s1 a1 count
    ]

-- The count is encoded twice.
unfoldable pub decode_arg_fdlist : Database → Internal → Argument → ListNode → Result
decode_arg_fdlist db s a node = decode_arg_reg db s a (node.base) andthen λ s1 a1.
    elim (value_of (decode_any db (s1.opcode) (node.count))) [
      | none ↦ Result.failed s1 a1
      | some count ↦ base_list register_q0 s1 a1 (half_int count)
    ]

-- The `while` of decode_arg_vlist, `inc` registers further in each round.
unfoldable pub steps_loop : ℕ → ℕ → ℕ → ℕ → List ℕ × Bool
steps_loop inc zero base j = ([], false)
steps_loop inc (suc count) base j =
    let register = u32 (base + j) in
    let rest = steps_loop inc count base (u32 (j + inc)) in
    if leb register_q16 register then ([], true) else (register ∷ rest.0, rest.1)

-- What follows the base, the count and the increment.
unfoldable pub vector_list : Internal → Argument → ℕ → ℕ → Result
vector_list s a count inc =
    let (registers, stopped) = steps_loop inc count (a.reg_value) 0 in
    set_list (unpredictable s stopped) (record a { list_index = u8 a.reg_index }) registers

unfoldable pub decode_arg_vlist : Database → Internal → Argument → VectorListNode → Result
decode_arg_vlist db s a node = decode_anynymous_immreg db s a (node.base) andthen λ s1 a1.
    elim (value_of (decode_any db (s1.opcode) (node.count))) [
      | none ↦ Result.failed s1 a1
      | some count ↦ elim (value_of (decode_any db (s1.opcode) (node.inc))) [
        | none ↦ Result.failed s1 a1
        | some inc ↦ vector_list s1 a1 count inc
      ]
    ]
