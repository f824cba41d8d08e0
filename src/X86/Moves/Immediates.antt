-- ===== src/X86/Moves/Immediates.antt =====
-- source/x86/decoder.c: the moves of immediates, offsets and far pointers.
use amed.Base.{
  ℕ, ◌+◌, ◌/◌, ◌<◌, ◌≡◌, refl, subst, arith, some-cases, if-cases, List, ltb, false, not, ◌==◌, u8,
}
use amed.Utils.Datatype.{Datatype}
use amed.X86.Names.{BytecodeType}
use amed.X86.Symbols.{encodedin_is4, symbol_shl, symbol_shr}
use amed.X86.Database.{AnyNode}
use amed.X86.State.{Internal}
use amed.X86.Fetch.{peek_bytes, advance, add_bytecode, bytes_from, le_value}
use amed.X86.Register.{get_real_size}
use amed.X86.Arguments.Slots.{argument_at, set_argument}
use amed.X86.Arguments.Immediates.{
  start_immediate, set_immediate, shifted_size, decode_arg_imm, decode_arg_imm_shift,
  decode_arg_imm_rotate, decode_arg_cc, decode_arg_rel,
}
use amed.X86.Arguments.Offsets.{moffs_of_size, decode_arg_moffs, ptr_offset_of_size, decode_arg_ptr}
use amed.X86.Moves.{Moves, Moves-trans, Quiet-Moves, quiet, quietly, after, Kept, unmoved}
use amed.X86.Moves.Steps.{taken-Moves, length-bytes_from, advance-Moves}
use amed.X86.Moves.Arguments.{get_is4_value-Moves}

module _ (s : Internal) (i : ℕ) (n : AnyNode) (h : s.nb < 256) where
  pub decode_arg_imm-Kept : Kept s (decode_arg_imm s i n)
  unfolding decode_arg_imm set_immediate
  decode_arg_imm-Kept =
      let size = get_real_size n.size s.diagram.osz in
      let s1 = set_argument s i (start_immediate n size (argument_at s i)) in
      let nbytes = u8 (size / 8) in
      let start : Moves s s1 = Quiet-Moves (quiet refl refl refl) in
      if-cases (Kept s) (not n.has_encodedin) (λ _. quietly (quiet refl refl refl))
        λ _.
          if-cases (Kept s) (n.value == encodedin_is4)
            (λ _.
              after (Moves-trans start (get_is4_value-Moves s1 h)) (quietly (quiet refl refl refl)))
            λ _.
              some-cases (Kept s) (peek_bytes s1 nbytes) (λ _. record { moves = start })
                λ bytes e.
                  after
                    (Moves-trans start
                      (taken-Moves nbytes bytes BytecodeType.imm h e (quiet refl refl refl)))
                    (quietly (quiet refl refl refl))

  pub decode_arg_rel-Kept : Kept s (decode_arg_rel s i n)
  unfolding decode_arg_rel
  decode_arg_rel-Kept =
      let k = decode_arg_imm-Kept in
      if-cases (Kept s) (not (decode_arg_imm s i n).1) (λ _. record { moves = k.moves })
        λ _. after k.moves (quietly (quiet refl refl refl))

  pub decode_arg_cc-Kept : Kept s (decode_arg_cc s i n)
  unfolding decode_arg_cc
  decode_arg_cc-Kept =
      let k = decode_arg_imm-Kept in
      if-cases (Kept s) (not (decode_arg_imm s i n).1) (λ _. record { moves = k.moves })
        λ _. after k.moves (quietly (quiet refl refl refl))

  pub decode_arg_imm_rotate-Kept : Kept s (decode_arg_imm_rotate s i n)
  unfolding decode_arg_imm_rotate
  decode_arg_imm_rotate-Kept =
      let k = decode_arg_imm-Kept in
      let r = decode_arg_imm s i n in
      if-cases (Kept s) (not r.1) (λ _. record { moves = k.moves })
        λ _.
          some-cases (Kept s) (shifted_size r.0) (λ _. record { moves = k.moves })
            λ esize _. after k.moves (quietly (quiet refl refl refl))

  pub decode_arg_imm_shift-Kept : Kept s (decode_arg_imm_shift s i n)
  unfolding decode_arg_imm_shift
  decode_arg_imm_shift-Kept =
      let k = decode_arg_imm-Kept in
      let r = decode_arg_imm s i n in
      if-cases (Kept s) (not r.1) (λ _. record { moves = k.moves })
        λ _.
          some-cases (Kept s) (shifted_size r.0) (λ _. record { moves = k.moves })
            λ esize _.
              if-cases (Kept s) (n.symbol == symbol_shl)
                (λ _. after k.moves (quietly (quiet refl refl refl)))
                λ _.
                  if-cases (Kept s) (n.symbol == symbol_shr)
                    (λ _. after k.moves (quietly (quiet refl refl refl)))
                    λ _. record { moves = k.moves }

-- The offsets are recorded before the position moves.
recorded_first :
    (s : Internal) (bytes : List ℕ) (kind : BytecodeType) (n : ℕ)
    → (add_bytecode (advance s n) bytes kind).0 ≡ advance (add_bytecode s bytes kind).0 n
unfolding advance add_bytecode
recorded_first s bytes kind n = ground arith

offset-Moves :
    (s : Internal) (n : ℕ) (kind : BytecodeType)
    → s.nb < 256
    → ltb s.nb (s.pc + n) ≡ false
    → Moves s (advance (add_bytecode s (bytes_from s.address s.pc n) kind).0 n)
offset-Moves s n kind h fits =
    subst (Moves s) (recorded_first s (bytes_from s.address s.pc n) kind n) (
      advance-Moves n (bytes_from s.address s.pc n) kind h (ground arith)
        (length-bytes_from s.address s.pc n) (quiet refl refl refl))

moffs_of_size-Kept :
    (s : Internal) (i : ℕ) (n : AnyNode) (nbytes : ℕ) (dt : Datatype)
    → s.nb < 256
    → Kept s (moffs_of_size s i n nbytes dt)
unfolding moffs_of_size
moffs_of_size-Kept s i n nbytes dt h =
    if-cases (Kept s) (ltb s.nb (s.pc + nbytes)) (λ _. unmoved s)
      λ f. after (offset-Moves s nbytes BytecodeType.disp h f) (quietly (quiet refl refl refl))

pub decode_arg_moffs-Kept :
    (s : Internal) (i : ℕ) (n : AnyNode) → s.nb < 256 → Kept s (decode_arg_moffs s i n)
unfolding decode_arg_moffs
decode_arg_moffs-Kept s i n h =
    if-cases (Kept s) (s.diagram.asz == 0) (λ _. moffs_of_size-Kept s i n 2 Datatype.s16 h)
      λ _.
        if-cases (Kept s) (s.diagram.asz == 1) (λ _. moffs_of_size-Kept s i n 4 Datatype.s32 h)
          λ _.
            if-cases (Kept s) (s.diagram.asz == 2) (λ _. moffs_of_size-Kept s i n 8 Datatype.s64 h)
              λ _. unmoved s

ptr_offset_of_size-Kept :
    (s : Internal) (i seg nbytes : ℕ) (dt : Datatype)
    → s.nb < 256
    → Kept s (ptr_offset_of_size s i seg nbytes dt)
unfolding ptr_offset_of_size
ptr_offset_of_size-Kept s i seg nbytes dt h =
    if-cases (Kept s) (ltb s.nb (s.pc + nbytes)) (λ _. unmoved s)
      λ f. after (offset-Moves s nbytes BytecodeType.disp h f) (quietly (quiet refl refl refl))

pub decode_arg_ptr-Kept :
    (s : Internal) (i : ℕ) (n : AnyNode) → s.nb < 256 → Kept s (decode_arg_ptr s i n)
unfolding decode_arg_ptr
decode_arg_ptr-Kept s i n h =
    if-cases (Kept s) (ltb s.nb (s.pc + 2)) (λ _. unmoved s)
      λ f.
        let m = offset-Moves s 2 BytecodeType.abs_seg h f in
        let seg = le_value (bytes_from s.address s.pc 2) in
        if-cases (Kept s) (s.diagram.osz == 0)
          (λ _. after m (ptr_offset_of_size-Kept _ i seg 2 Datatype.s16 (omega (arith, m.same_nb))))
          λ _.
            if-cases (Kept s) (s.diagram.osz == 1)
              (λ _.
                after m (ptr_offset_of_size-Kept _ i seg 4 Datatype.s32 (omega (arith, m.same_nb))))
              λ _. record { moves = m }
