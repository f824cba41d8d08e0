-- ===== src/X86/Moves/Arguments.antt =====
-- source/x86/decoder.c: the moves of register and memory arguments.
use amed.Base.{ℕ, ◌<◌, refl, arith, some-cases, if-cases, not, Option, some, none, ◌==◌}
use amed.Utils.Datatype.{get_datatype_size}
use amed.X86.Names.{BytecodeType, register_k0}
use amed.X86.Symbols.{encodedin_is4}
use amed.X86.Database.{RegNode, MemNode, SwizzleRow, Database}
use amed.X86.State.{Memory, Internal}
use amed.X86.Fetch.{peek_byte, advance_byte}
use amed.X86.Register.{get_is4_value, decode_node_register_value}
use amed.X86.Arguments.Slots.{argument_at}
use amed.X86.Arguments.Registers.{decode_arg_reg, decode_arg_preg, decode_arg_vreg}
use amed.X86.Arguments.Memory.{
  optional_register, implicit_memory, decode_arg_mem, decode_arg_address, decode_node_sbcst,
  decode_node_bcst,
}
use amed.X86.Moves.{
  Moves, Moves-refl, Moves-trans, Quiet-Moves, quiet, quietly, after, Kept, unmoved,
}
use amed.X86.Arguments.Swizzle.{decode_node_swz_reg, decode_node_swz_mem}
use amed.X86.Moves.Steps.{taken_byte-Moves, peek_byte-fits}

module _ (s : Internal) (h : s.nb < 256) where
  pub get_is4_value-Moves : Moves s (get_is4_value s).1
  unfolding get_is4_value advance_byte
  get_is4_value-Moves =
      if-cases (λ (r : ℕ × Internal). Moves s r.1) s.diagram.has_is4 (λ _. Moves-refl s)
        λ _.
          some-cases (λ (r : ℕ × Internal). Moves s r.1) (peek_byte s) (λ _. Moves-refl s)
            λ is4 e.
              Moves-trans
                (taken_byte-Moves
                  (advance_byte (record s { diagram = record (s.diagram) { is4 = is4 } })) is4
                  BytecodeType.imm h (peek_byte-fits s is4 e).0 refl refl refl)
                (Quiet-Moves (quiet refl refl refl))

  register_value-Moves : (n : RegNode) → Moves s (decode_node_register_value s n).1
  unfolding decode_node_register_value
  register_value-Moves n =
      if-cases (λ (r : ℕ × Internal). Moves s r.1) (not n.has_encodedin) (λ _. Moves-refl s)
        λ _.
          if-cases (λ (r : ℕ × Internal). Moves s r.1) (n.value == encodedin_is4)
            (λ _. get_is4_value-Moves) λ _. Moves-refl s

  pub decode_arg_reg-Kept : (db : Database) (i : ℕ) (n : RegNode) → Kept s (decode_arg_reg db s i n)
  unfolding decode_arg_reg
  decode_arg_reg-Kept db i n =
      let m = register_value-Moves n in
      record {
        moves =
            if-cases (Moves s) n.read (λ _. Moves-trans m (Quiet-Moves (quiet refl refl refl)))
              λ _. Moves-trans m (Quiet-Moves (quiet refl refl refl));
      }

  pub decode_arg_vreg-Kept :
      (db : Database) (i : ℕ) (n : RegNode) → Kept s (decode_arg_vreg db s i n)
  unfolding decode_arg_vreg
  decode_arg_vreg-Kept db i n =
      let k = decode_arg_reg-Kept db i n in
      if-cases (Kept s) (not (decode_arg_reg db s i n).1) (λ _. record { moves = k.moves })
        λ _. after k.moves (quietly (quiet refl refl refl))

  pub decode_arg_preg-Kept :
      (db : Database) (i : ℕ) (n : RegNode) → Kept s (decode_arg_preg db s i n)
  unfolding decode_arg_preg
  decode_arg_preg-Kept db i n =
      let k = decode_arg_reg-Kept db i n in
      let r = decode_arg_reg db s i n in
      if-cases (Kept s) (not r.1) (λ _. record { moves = k.moves })
        λ _.
          if-cases (Kept s) ((argument_at r.0 i).reg_value == register_k0)
            (λ _. after k.moves (quietly (quiet refl refl refl)))
            λ _. after k.moves (quietly (ground arith))

  optional_register-Moves : (n : Option RegNode) → Moves s (optional_register s n).1
  unfolding optional_register
  optional_register-Moves none = Moves-refl s
  optional_register-Moves (some n) = register_value-Moves n

-- The segment is read before the base, whose state is another.
implicit_memory-Moves :
    (s : Internal) (n : MemNode) (m : Memory) → s.nb < 256 → Moves s (implicit_memory s n m).1
unfolding implicit_memory
implicit_memory-Moves s n m h =
    let first = optional_register-Moves s h n.seg in
    Moves-trans first
      (optional_register-Moves (optional_register s n.seg).1 (omega (arith, first.same_nb)) n.base)

module _ (s : Internal) (h : s.nb < 256) where
  pub decode_arg_mem-Kept : (i : ℕ) (n : MemNode) → Kept s (decode_arg_mem s i n)
  unfolding decode_arg_mem
  decode_arg_mem-Kept i n =
      let m =
        if-cases (λ (r : Memory × Internal). Moves s r.1) n.has_encodedin (λ _. Moves-refl s)
          λ _. implicit_memory-Moves s n _ h in
      after m (quietly (quiet refl refl refl))

  pub decode_arg_address-Kept : (i : ℕ) (n : MemNode) → Kept s (decode_arg_address s i n)
  unfolding decode_arg_address
  decode_arg_address-Kept i n =
      let k = decode_arg_mem-Kept i n in
      if-cases (Kept s) (not (decode_arg_mem s i n).1) (λ _. record { moves = k.moves })
        λ _. after k.moves (quietly (quiet refl refl refl))

pub decode_node_sbcst-Kept : (s : Internal) (from to : ℕ) → Kept s (decode_node_sbcst s from to)
unfolding decode_node_sbcst
decode_node_sbcst-Kept s from to =
    some-cases (Kept s) s.vmem (λ _. unmoved s) λ v _. quietly (quiet refl refl refl)

pub decode_node_bcst-Kept : (s : Internal) → Kept s (decode_node_bcst s)
unfolding decode_node_bcst
decode_node_bcst-Kept s =
    some-cases (Kept s) s.vmem (λ _. unmoved s)
      λ v _. if-cases (Kept s) s.diagram.bp (λ _. quietly (quiet refl refl refl)) λ _. unmoved s

pub decode_node_swz_reg-Kept : (s : Internal) → Kept s (decode_node_swz_reg s)
unfolding decode_node_swz_reg
decode_node_swz_reg-Kept s =
    some-cases (Kept s) s.vreg (λ _. unmoved s) λ v _. quietly (quiet refl refl refl)

pub decode_node_swz_mem-Kept :
    (s : Internal) (table : ℕ → SwizzleRow) → Kept s (decode_node_swz_mem s table)
unfolding decode_node_swz_mem
decode_node_swz_mem-Kept s table =
    let row = table s.diagram.sss in
    some-cases (Kept s) s.vmem (λ _. unmoved s)
      λ v _.
        if-cases (Kept s) row.reserved (λ _. quietly (quiet refl refl refl))
          λ _.
            if-cases (Kept s) (get_datatype_size row.mdt == 0) (λ _. quietly (quiet refl refl refl))
              λ _.
                if-cases (Kept s) (not row.broadcasting) (λ _. quietly (quiet refl refl refl))
                  λ _.
                    if-cases (Kept s) (get_datatype_size row.vdt == 0)
                      (λ _. quietly (quiet refl refl refl)) λ _. quietly (quiet refl refl refl)
