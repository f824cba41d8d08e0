-- ===== src/X86/Nodes/Immediates.antt =====
-- source/x86/decoder.c: immediate arguments change the type of no other argument.
use amed.Base.{ℕ, ◌+◌, ◌/◌, refl, if-cases, some-cases, not, Bool, ◌==◌, ltb, u8}
use amed.X86.Names.{BytecodeType}
use amed.X86.Symbols.{encodedin_is4, symbol_shl, symbol_shr}
use amed.X86.Database.{AnyNode}
use amed.X86.State.{Internal}
use amed.X86.Fetch.{bytes_from, add_bytecode, advance, peek_bytes}
use amed.X86.Register.{get_real_size}
use amed.X86.Arguments.Slots.{argument_at, set_argument}
use amed.X86.Arguments.Immediates.{
  start_immediate, set_immediate, shifted_size, decode_arg_imm, decode_arg_imm_shift,
  decode_arg_imm_rotate, decode_arg_cc, decode_arg_rel, decode_node_sae, decode_node_evh,
  decode_node_rc,
}
use amed.Utils.Datatype.{Datatype}
use amed.X86.Arguments.Offsets.{decode_arg_moffs, decode_arg_ptr, moffs_of_size, ptr_offset_of_size}
use amed.X86.Nodes.Others.{
  Others, Others-trans, still, placed, get_is4_value-Others, add_bytecode-arguments,
}

module _ (i : ℕ) (s : Internal) where
  abbrev Leaves : Internal × Bool → Type 0
  Leaves r = Others i s r.0

  pub decode_arg_imm-Others : (n : AnyNode) → Leaves (decode_arg_imm s i n)
  unfolding decode_arg_imm set_immediate advance
  decode_arg_imm-Others n =
      let size = get_real_size n.size s.diagram.osz in
      let s1 = set_argument s i (start_immediate n size (argument_at s i)) in
      let start : Others i s s1 = placed _ refl in
      if-cases Leaves (not n.has_encodedin) (λ _. Others-trans start (placed _ refl))
        λ _.
          if-cases Leaves (n.value == encodedin_is4)
            (λ _. Others-trans start (Others-trans (get_is4_value-Others i s1) (placed _ refl)))
            λ _.
              some-cases Leaves (peek_bytes s1 (u8 (size / 8))) (λ _. start)
                λ bytes _.
                  let s2 = (add_bytecode (advance s1 (u8 (size / 8))) bytes BytecodeType.imm).0 in
                  let read : Others i s1 s2 =
                    still (add_bytecode-arguments (advance s1 (u8 (size / 8))) _ _) in
                  Others-trans start (Others-trans read (placed _ refl))

  pub decode_arg_imm_shift-Others : (n : AnyNode) → Leaves (decode_arg_imm_shift s i n)
  unfolding decode_arg_imm_shift
  decode_arg_imm_shift-Others n =
      let m = decode_arg_imm-Others n in
      let s1 = (decode_arg_imm s i n).0 in
      if-cases Leaves (not (decode_arg_imm s i n).1) (λ _. m)
        λ _.
          some-cases Leaves (shifted_size s1) (λ _. m)
            λ esize _.
              if-cases Leaves (n.symbol == symbol_shl) (λ _. Others-trans m (still refl))
                λ _.
                  if-cases Leaves (n.symbol == symbol_shr) (λ _. Others-trans m (still refl)) λ _. m

  pub decode_arg_imm_rotate-Others : (n : AnyNode) → Leaves (decode_arg_imm_rotate s i n)
  unfolding decode_arg_imm_rotate
  decode_arg_imm_rotate-Others n =
      let m = decode_arg_imm-Others n in
      let s1 = (decode_arg_imm s i n).0 in
      if-cases Leaves (not (decode_arg_imm s i n).1) (λ _. m)
        λ _. some-cases Leaves (shifted_size s1) (λ _. m) λ esize _. Others-trans m (still refl)

  pub decode_arg_cc-Others : (n : AnyNode) → Leaves (decode_arg_cc s i n)
  unfolding decode_arg_cc
  decode_arg_cc-Others n =
      let m = decode_arg_imm-Others n in
      if-cases Leaves (not (decode_arg_imm s i n).1) (λ _. m) λ _. Others-trans m (placed _ refl)

  pub decode_arg_rel-Others : (n : AnyNode) → Leaves (decode_arg_rel s i n)
  unfolding decode_arg_rel
  decode_arg_rel-Others n =
      let m = decode_arg_imm-Others n in
      if-cases Leaves (not (decode_arg_imm s i n).1) (λ _. m) λ _. Others-trans m (placed _ refl)

  pub decode_node_sae-Others : Leaves (decode_node_sae s i)
  unfolding decode_node_sae
  decode_node_sae-Others = placed _ refl

  pub decode_node_evh-Others : Leaves (decode_node_evh s i)
  unfolding decode_node_evh
  decode_node_evh-Others = placed _ refl

  pub decode_node_rc-Others : (encodedin : ℕ) → Leaves (decode_node_rc s i encodedin)
  unfolding decode_node_rc
  decode_node_rc-Others encodedin = placed _ refl

  moffs_of_size-Others :
      (n : AnyNode) (nbytes : ℕ) (offset_dt : Datatype)
      → Leaves (moffs_of_size s i n nbytes offset_dt)
  unfolding moffs_of_size advance
  moffs_of_size-Others n nbytes offset_dt =
      if-cases Leaves (ltb s.nb (s.pc + nbytes)) (λ _. still refl)
        λ _.
          let bytes = bytes_from s.address s.pc nbytes in
          let s1 = advance (add_bytecode s bytes BytecodeType.disp).0 nbytes in
          let read : Others i s s1 = still (add_bytecode-arguments s _ BytecodeType.disp) in
          Others-trans read (placed _ refl)

  pub decode_arg_moffs-Others : (n : AnyNode) → Leaves (decode_arg_moffs s i n)
  unfolding decode_arg_moffs
  decode_arg_moffs-Others n =
      if-cases Leaves (s.diagram.asz == 0) (λ _. moffs_of_size-Others n 2 Datatype.s16)
        λ _.
          if-cases Leaves (s.diagram.asz == 1) (λ _. moffs_of_size-Others n 4 Datatype.s32)
            λ _.
              if-cases Leaves (s.diagram.asz == 2) (λ _. moffs_of_size-Others n 8 Datatype.s64)
                λ _. still refl

ptr_offset_of_size-Others :
    (i : ℕ) (s : Internal) (seg nbytes : ℕ) (offset_dt : Datatype)
    → Leaves i s (ptr_offset_of_size s i seg nbytes offset_dt)
unfolding ptr_offset_of_size advance
ptr_offset_of_size-Others i s seg nbytes offset_dt =
    if-cases (Leaves i s) (ltb s.nb (s.pc + nbytes)) (λ _. still refl)
      λ _.
        let bytes = bytes_from s.address s.pc nbytes in
        let s1 = advance (add_bytecode s bytes BytecodeType.disp).0 nbytes in
        let read : Others i s s1 = still (add_bytecode-arguments s _ BytecodeType.disp) in
        Others-trans read (placed _ refl)

pub decode_arg_ptr-Others : (i : ℕ) (s : Internal) (n : AnyNode) → Leaves i s (decode_arg_ptr s i n)
unfolding decode_arg_ptr advance
decode_arg_ptr-Others i s n =
    let s1 = advance (add_bytecode s (bytes_from s.address s.pc 2) BytecodeType.abs_seg).0 2 in
    let read : Others i s s1 = still (add_bytecode-arguments s _ BytecodeType.abs_seg) in
    if-cases (Leaves i s) (ltb s.nb (s.pc + 2)) (λ _. still refl)
      λ _.
        if-cases (Leaves i s) (s.diagram.osz == 0)
          (λ _. Others-trans read (ptr_offset_of_size-Others i s1 _ 2 Datatype.s16))
          λ _.
            if-cases (Leaves i s) (s.diagram.osz == 1)
              (λ _. Others-trans read (ptr_offset_of_size-Others i s1 _ 4 Datatype.s32)) λ _. read
