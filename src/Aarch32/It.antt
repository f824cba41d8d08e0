-- ===== src/Aarch32/It.antt =====
-- source/aarch32/decoder.c, from `get_it_op_from_mask` to `decode_arm_conditional_execution`: the IT
-- block in the context, and the condition under which an instruction runs.
pub mod Expansion
use amed.Base.{
  ℕ, ◌+◌, Bool, true, false, not, ◌||◌, List, [], ◌∷◌, bit_and, bit_xor, ltb, ◌==◌, if◌then◌else◌,
  u8, field, get_or,
}
use amed.Aarch64.Names.{condition_eq, condition_al}
use amed.Aarch32.Names.{ItOp, condition_none, condition_nv}
use amed.Aarch32.Database.{Execution}
use amed.Aarch32.State.{Internal}

unfoldable pub is_insn_in_it_block : Internal → Bool
is_insn_in_it_block s = s.itblock.is_in

-- The operation for each mask.
abbrev pub it_ops : List ItOp
it_ops =
    ItOp.none ∷ ItOp.ttt ∷ ItOp.tt ∷ ItOp.tte ∷ ItOp.t ∷ ItOp.tet ∷ ItOp.te ∷ ItOp.tee ∷ ItOp.none
    ∷ ItOp.ett ∷ ItOp.et ∷ ItOp.ete ∷ ItOp.e ∷ ItOp.eet ∷ ItOp.ee ∷ ItOp.eee ∷ []

unfoldable pub get_it_op_from_mask : ℕ → ItOp
get_it_op_from_mask mask = get_or it_ops mask ItOp.none

-- `mask & bit ? inverted : first`.
abbrev pub choose : ℕ → ℕ → ℕ → ℕ
choose mask bit first = if bit_and mask bit == 0 then first else bit_xor first 1

-- The number of instructions in the block, and the conditions of the four that it can have.
unfoldable pub it_conditions : ℕ → ℕ → ℕ × List ℕ
it_conditions mask first =
    if mask == 8
    then (1, first ∷ condition_al ∷ condition_al ∷ condition_al ∷ [])
    else if bit_and mask 7 == 4
    then (2, first ∷ choose mask 8 first ∷ condition_al ∷ condition_al ∷ [])
    else if bit_and mask 3 == 2
    then (3, first ∷ choose mask 8 first ∷ choose mask 4 first ∷ condition_al ∷ [])
    else if not (bit_and mask 1 == 0)
    then (4, first ∷ choose mask 8 first ∷ choose mask 4 first ∷ choose mask 2 first ∷ [])
    else (0, first ∷ condition_al ∷ condition_al ∷ condition_al ∷ [])

-- The conditions are stored as bytes.
abbrev pub as_bytes : List ℕ → List ℕ
as_bytes [] = []
as_bytes (c ∷ cs) = u8 c ∷ as_bytes cs

-- An IT instruction in a block is unpredictable, and begins a block of its own all the same.
unfoldable pub decode_it : Internal → Internal
decode_it s =
    let mask = bit_and (s.opcode) 0x0f in
    let (count, conditions) = it_conditions mask ((s.insn.arguments 0).token) in
    record s {
      insn = record (s.insn) {
        condition = if s.itblock.is_in then condition_none else condition_al;
        is_unpredictable = s.itblock.is_in || s.insn.is_unpredictable;
        it_op = get_it_op_from_mask mask;
        it_insn_count = count;
      };
      itblock = record (s.itblock) {
        is_in = true;
        index = 0;
        count = count;
        conditions = as_bytes conditions;
      };
    }

-- `ok`, the condition that is left, and whether the instruction is unpredictable.
unfoldable pub check_condition : Execution → ℕ → Bool × ℕ × Bool
check_condition Execution.cond c = (true, c, false)
check_condition Execution.uncond c = (true, condition_al, false)
check_condition Execution.must_al c = (c == condition_al, c, false)
check_condition Execution.must_cond c = (not (c == condition_al), c, false)
check_condition Execution.must_nv c =
    (c == condition_nv, (if c == condition_nv then condition_al else c), false)
check_condition Execution.unp_cond c = (true, c, ltb c condition_al)
check_condition Execution.no_nv_unp_cond c = (not (c == condition_nv), c, ltb c condition_al)
check_condition Execution.no_nv c = (not (c == condition_nv), c, false)

-- The condition is stored as a byte.
unfoldable pub decode_conditional_execution : Internal → ℕ → Internal
decode_conditional_execution s c =
    let (ok, left, unpredictable) = check_condition (s.ptemplate.cond) c in
    record s {
      insn = record (s.insn) {
        is_unpredictable = s.insn.is_unpredictable || unpredictable;
        condition = u8 left;
        is_undefined = s.insn.is_undefined || not ok;
        is_running_conditionally = ltb left condition_al;
      };
    }

unfoldable pub decode_thumb_conditional_execution : Internal → Internal
decode_thumb_conditional_execution s =
    let it = s.itblock in
    decode_conditional_execution s
      (if it.is_in then get_or (it.conditions) (it.index) 0 else condition_al)

unfoldable pub decode_arm_conditional_execution : Internal → Internal
decode_arm_conditional_execution s =
    decode_conditional_execution s (field 28 4 s.opcode + condition_eq)
