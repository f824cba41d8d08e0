-- ===== src/Aarch64/Arguments/Lists.antt =====
-- source/aarch64/decoder.c, the lists of vector registers.
pub mod Consecutive
use amed.Base.{
  ℕ, zero, suc, ◌+◌, false, Option, none, some, List, [], ◌∷◌, ◌==◌, if◌then◌else◌, u8, u16,
}
use amed.Aarch64.Names.{Symbol, register_v0, register_v31, register_z0, register_z31}
use amed.Aarch64.Database.{ListNode, Database}
use amed.Aarch64.State.{ArgumentType, Argument, Internal, Result, ◌andthen◌}
use amed.Aarch64.Arguments.Memory.{decode_anynymous_immreg}

-- The first and the last register of a class that has lists.
abbrev pub list_bounds : Symbol → Option (ℕ × ℕ)
list_bounds Symbol.vecreg = some (register_v0, register_v31)
list_bounds Symbol.svereg = some (register_z0, register_z31)
list_bounds _ = none

-- The loop over the registers. The array has room for 32, which is not checked here: this is the
-- source's loop for the lists of the tables, which are shorter.
unfoldable pub registers_loop : ℕ → ℕ → ℕ → ℕ → List ℕ
registers_loop zero base first last = []
registers_loop (suc count) base first last =
    let next = u16 (base + 1) in
    base ∷ registers_loop count (if next == 1 + last then first else next) first last

-- What follows the decoding of the base.
unfoldable pub set_list : Database → ListNode → Internal → Argument → Result
set_list db node s a = elim (list_bounds ((db.reginfo (a.reg_value)).kind)) [
  | none ↦ Result.failed s a
  | some (first, last) ↦ Result.decoded s (record a {
    list_index = u8 a.reg_index;
    list_registers = registers_loop (node.count) (a.reg_value) first last;
    kind = ArgumentType.list;
    list_count = u8 node.count;
  })
]

unfoldable pub decode_arg_vlist : Database → Internal → Argument → ListNode → Result
decode_arg_vlist db s a node =
    decode_anynymous_immreg db s a (node.base) andthen λ s1 a1. set_list db node s1 a1

unfoldable pub decode_arg_elist : Database → Internal → Argument → ListNode → Result
decode_arg_elist db s a node = decode_arg_vlist db s a node andthen λ s1 a1.
    Result.decoded s1 (record a1 { is_vector = false })
