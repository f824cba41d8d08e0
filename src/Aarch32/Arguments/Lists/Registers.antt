-- ===== src/Aarch32/Arguments/Lists/Registers.antt =====
-- The registers of the lists of source/aarch32/decoder.c.
use native.Mathlib.Nat.{pow-suc, div-div-eq-div-mul}
use amed.Base.{
  ℕ, zero, suc, min, ◌+◌, ◌-◌, ◌*◌, ◌/◌, ◌%◌, ◌^◌, ◌≤◌, ◌<◌, ◌≡◌, refl, sym, ap, ◌∙◌, arith, true,
  ◌||◌, ◌&&◌, List, [], ◌∷◌, leb, ltb, ◌==◌, if◌then◌else◌, u16, Bool-cases, inl, inr, flag, length,
}
use amed.Aarch32.Names.{register_r0}
use amed.Aarch32.Database.{Any, Database}
use amed.Aarch32.State.{ArgumentType, Argument, Internal, Result, unpredictable}
use amed.Aarch32.Fields.{read_encodedin_value}
use amed.Aarch32.Arguments.Lists.{
  set_list, set_access, branches, bits_loop, decode_arg_glist, registers_loop, base_list,
}

-- The registers of the bits that are set among the `n` bits of `v` from bit `i` on: R0 has bit 0.
unfoldable pub set_bits : ℕ → ℕ → ℕ → List ℕ
set_bits zero v i = []
set_bits (suc n) v i =
    let rest = set_bits n v (suc i) in if v / 2 ^ i % 2 == 1 then (register_r0 + i) ∷ rest else rest

half_lem : (v i : ℕ) → v / 2 ^ suc i ≡ v / 2 ^ i / 2
half_lem v i =
    let double : 2 ^ suc i ≡ 2 ^ i * 2 = omega (arith, pow-suc 2 i) in
    ap (λ (t : ℕ). v / t) double ∙ sym (div-div-eq-div-mul v (2 ^ i) 2)

bits_loop-zero : (n i : ℕ) → bits_loop n 0 i ≡ []
unfolding bits_loop
bits_loop-zero zero i = refl
bits_loop-zero (suc n) i = refl

set_bits-zero : (n v i : ℕ) → v / 2 ^ i ≡ 0 → set_bits n v i ≡ []
unfolding set_bits
set_bits-zero zero v i h = refl
set_bits-zero (suc n) v i h =
    let next : v / 2 ^ suc i ≡ 0 = omega (arith, half_lem v i) in
    rw (h, set_bits-zero n v (suc i) next) refl

bits_loop-set_bits : (n v i : ℕ) → i + n ≤ 2 ^ 15 → bits_loop n (v / 2 ^ i) i ≡ set_bits n v i
unfolding bits_loop set_bits
bits_loop-set_bits zero v i small = refl
bits_loop-set_bits (suc n) v i small =
    let later = bits_loop-set_bits n v (suc i) (omega arith) in
    let shifted : bits_loop n (v / 2 ^ i / 2) (i + 1) ≡ set_bits n v (suc i) =
      ap (λ (t : ℕ). bits_loop n t (i + 1)) (sym (half_lem v i))
      ∙ ap (λ (t : ℕ). bits_loop n (v / 2 ^ suc i) t) (omega arith)
      ∙ later in
    let next : u16 (i + register_r0) ≡ register_r0 + i = omega arith in
    rw (shifted, next) (ground (arith, set_bits-zero n v (suc i), half_lem v i))

-- `n` registers from `base` on.
unfoldable pub consecutive : ℕ → ℕ → List ℕ
consecutive zero base = []
consecutive (suc n) base = base ∷ consecutive n (suc base)

registers_loop_lem :
    (limit count base : ℕ)
    → base ≤ limit
    → limit < 2 ^ 16
    → registers_loop limit count base
      ≡ (consecutive (min count (limit - base)) base, ltb (limit - base) count)
unfolding registers_loop consecutive
registers_loop_lem limit zero base h small =
    let none_left : min 0 (limit - base) ≡ 0 = omega arith in rw none_left (ground arith)
registers_loop_lem limit (suc count) base h small = elim (Bool-cases (base == limit)) [
  | inl e ↦
      let at_limit : limit - base ≡ 0 = ground arith in
      let none_left : min (suc count) 0 ≡ 0 = omega arith in
      rw (e, at_limit, none_left) (ground arith)
  | inr e ↦
      let below : base < limit = ground arith in
      let one_more : min (suc count) (limit - base) ≡ suc (min count (limit - suc base)) =
        omega arith in
      let next : base + 1 ≡ suc base = omega arith in
      let fits : u16 base ≡ base = omega arith in
      rw (e, one_more, next, registers_loop_lem limit count (suc base) below small, fits)
        (ground arith)
]

length-set_bits : (n v i : ℕ) → length (set_bits n v i) ≤ n
unfolding set_bits
length-set_bits zero v i = omega arith
length-set_bits (suc n) v i = ground (arith, length-set_bits n v (suc i))

length-consecutive : (n base : ℕ) → length (consecutive n base) ≡ n
unfolding consecutive
length-consecutive zero base = refl
length-consecutive (suc n) base = ap suc (length-consecutive n (suc base))

abbrev pub as_list : Argument → List ℕ → ℕ → Argument
as_list a registers count = record a {
  kind = ArgumentType.list;
  list_registers = registers;
  list_count = count;
}

set_list-decoded :
    (s : Internal) (a : Argument) (registers : List ℕ) (count : ℕ)
    → length registers ≡ count
    → count ≤ 32
    → set_list s a registers ≡ Result.decoded s (as_list a registers count)
unfolding set_list
set_list-decoded s a registers count e h =
    let fits : leb (length registers) 32 ≡ true = ground arith in rw (fits, e) refl

-- For every node, state and argument, decode_arg_glist succeeds, with the registers R0 and on whose bits
-- are set among the 32 of the field, in their order, each once; the instruction may branch if it did
-- already or it writes the list and bit 15, the program counter's, is set.
pub decode_arg_glist-set_bits :
    (db : Database) (s : Internal) (a : Argument) (n : Any)
    → let raw = (read_encodedin_value db (s.opcode) (n.encodedin)).0 in
      let registers = set_bits 32 raw 0 in
      decode_arg_glist db s a n
      ≡ Result.decoded
          (branches s (flag 15 raw && n.write))
          (as_list (set_access a n) registers (length registers))
unfolding decode_arg_glist
decode_arg_glist-set_bits db s a n =
    let raw : ℕ = (read_encodedin_value db (s.opcode) (n.encodedin)).0 in
    let whole : raw / 2 ^ 0 ≡ raw = omega arith in
    let registers : bits_loop 32 raw 0 ≡ set_bits 32 raw 0 =
      ap (λ (t : ℕ). bits_loop 32 t 0) (sym whole) ∙ bits_loop-set_bits 32 raw 0 (omega arith) in
    rw registers (set_list-decoded _ _ _ _ refl (length-set_bits 32 raw 0))

-- For every state and count, and a base at most the limit and no more than 32 below it, the base of a
-- list of single or double registers (the limits D0 and Q0) is followed by as many registers as the
-- count says, one after the other, but by none from the limit on. The list is decoded, and the
-- instruction is marked as unpredictable exactly if it was, or the count is 0 or more than these.
pub base_list-consecutive :
    (limit : ℕ) (s : Internal) (a : Argument) (count : ℕ)
    → a.reg_value ≤ limit
    → limit ≤ a.reg_value + 32
    → limit < 2 ^ 16
    → let room = limit - a.reg_value in
      base_list limit s a count
      ≡ Result.decoded (unpredictable s (count == 0 || ltb room count)) (
          as_list
            (record a { number_of_elements = 1 })
            (consecutive (min count room) (a.reg_value))
            (min count room))
unfolding base_list
base_list-consecutive limit s a count low high small =
    rw (registers_loop_lem limit count (a.reg_value) low small)
      (set_list-decoded _ _ _ _ (length-consecutive _ (a.reg_value)) (omega arith))
