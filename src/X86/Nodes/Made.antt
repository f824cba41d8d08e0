-- ===== src/X86/Nodes/Made.antt =====
-- source/x86/decoder.c: the nodes that give the argument at their place a type.
use amed.Base.{
  ℕ, suc, ◌+◌, ◌/◌, ◌≡◌, refl, ◌∙◌, ap, arith, if-cases, some-cases, not, ◌&&◌, Bool, true, false,
  ◌==◌, ==_iff, if◌then◌else◌, ltb, leb, u8,
}
use amed.Utils.Datatype.{Datatype}
use amed.X86.Names.{BytecodeType, register_k0}
use amed.X86.Symbols.{encodedin_is4, symbol_shl, symbol_shr}
use amed.X86.Database.{RegNode, MemNode, AnyNode, Database}
use amed.X86.State.{Argument, Internal}
use amed.X86.Fetch.{bytes_from, add_bytecode, advance, peek_bytes}
use amed.X86.Register.{get_real_size}
use amed.X86.Arguments.Slots.{argument_at, set_argument}
use amed.X86.Arguments.Registers.{
  register_argument, decode_arg_reg, decode_arg_preg, decode_arg_vreg,
}
use amed.X86.Arguments.Memory.{finish_memory, decode_arg_mem, decode_arg_address}
use amed.X86.Arguments.Immediates.{
  start_immediate, set_immediate, shifted_size, decode_arg_imm, decode_arg_imm_shift,
  decode_arg_imm_rotate, decode_arg_cc, decode_arg_rel, decode_node_sae, decode_node_evh,
  decode_node_rc,
}
use amed.X86.Arguments.Offsets.{
  moffs_argument, moffs_of_size, ptr_offset_of_size, decode_arg_moffs, decode_arg_ptr,
}
use amed.X86.Nodes.{is_none}
use amed.X86.Nodes.Others.{Others, still, get_is4_value-Others, add_bytecode-arguments}

-- Where the call succeeds, the argument at `i` has a type.
abbrev pub Makes : ℕ → Internal × Bool → Type 0
Makes i r = r.1 ≡ true → is_none (argument_at r.0 i).kind ≡ false

-- A step that leaves every type but the next one's keeps the one at `i`.
pub Others-kind :
    {i : ℕ} {s t : Internal} → Others (suc i) s t → (argument_at t i).kind ≡ (argument_at s i).kind
Others-kind {i} others = others.same_kind i (ground arith)

-- What is read at a place that was just written.
typed_place :
    (i : ℕ) (a b : Argument)
    → is_none a.kind ≡ false
    → is_none (if i == i then a else b).kind ≡ false
typed_place i a b k = let same : (i == i) ≡ true = (==_iff i i).1 refl in rw same k

module _ (i : ℕ) (s : Internal) where
  pub decode_arg_reg-Makes : (db : Database) (n : RegNode) → Makes i (decode_arg_reg db s i n)
  unfolding decode_arg_reg register_argument
  decode_arg_reg-Makes db n _ =
      if-cases (λ (t : Internal). is_none (argument_at t i).kind ≡ false) n.read
        (λ _. typed_place i _ _ refl) λ _. typed_place i _ _ refl

  pub decode_arg_vreg-Makes : (db : Database) (n : RegNode) → Makes i (decode_arg_vreg db s i n)
  unfolding decode_arg_vreg
  decode_arg_vreg-Makes db n =
      if-cases (Makes i) (not (decode_arg_reg db s i n).1) (λ _ no. absurd (ground arith))
        λ ok _. typed_place i _ _ (decode_arg_reg-Makes db n (ground arith))

  pub decode_arg_mem-Makes : (n : MemNode) → Makes i (decode_arg_mem s i n)
  unfolding decode_arg_mem finish_memory
  decode_arg_mem-Makes n _ = typed_place i _ _ refl

  pub decode_arg_address-Makes : (n : MemNode) → Makes i (decode_arg_address s i n)
  unfolding decode_arg_address
  decode_arg_address-Makes n =
      if-cases (Makes i) (not (decode_arg_mem s i n).1) (λ _ no. absurd (ground arith))
        λ _ _. typed_place i _ _ refl

  pub decode_arg_imm-Makes : (n : AnyNode) → Makes i (decode_arg_imm s i n)
  unfolding decode_arg_imm set_immediate advance start_immediate
  decode_arg_imm-Makes n =
      let size = get_real_size n.size s.diagram.osz in
      let s1 = set_argument s i (start_immediate n size (argument_at s i)) in
      let start : is_none (argument_at s1 i).kind ≡ false = typed_place i _ _ refl in
      if-cases (Makes i) (not n.has_encodedin) (λ _ _. typed_place i _ _ start)
        λ _.
          if-cases (Makes i) (n.value == encodedin_is4)
            (λ _ _.
              typed_place i _ _
                (ap is_none (Others-kind (get_is4_value-Others (suc i) s1)) ∙ start))
            λ _.
              some-cases (Makes i) (peek_bytes s1 (u8 (size / 8))) (λ _ no. absurd (ground arith))
                λ bytes _ _.
                  let s2 = (add_bytecode (advance s1 (u8 (size / 8))) bytes BytecodeType.imm).0 in
                  let read : Others (suc i) s1 s2 =
                    still (add_bytecode-arguments (advance s1 (u8 (size / 8))) _ _) in
                  typed_place i _ _ (ap is_none (Others-kind read) ∙ start)

  pub decode_arg_imm_shift-Makes : (n : AnyNode) → Makes i (decode_arg_imm_shift s i n)
  unfolding decode_arg_imm_shift
  decode_arg_imm_shift-Makes n =
      if-cases (Makes i) (not (decode_arg_imm s i n).1) (λ _ no. absurd (ground arith))
        λ ok.
          let m = decode_arg_imm-Makes n (ground arith) in
          some-cases (Makes i) (shifted_size (decode_arg_imm s i n).0) (λ _ _. m)
            λ esize _.
              if-cases (Makes i) (n.symbol == symbol_shl) (λ _ _. m)
                λ _. if-cases (Makes i) (n.symbol == symbol_shr) (λ _ _. m) λ _ _. m

  pub decode_arg_imm_rotate-Makes : (n : AnyNode) → Makes i (decode_arg_imm_rotate s i n)
  unfolding decode_arg_imm_rotate
  decode_arg_imm_rotate-Makes n =
      if-cases (Makes i) (not (decode_arg_imm s i n).1) (λ _ no. absurd (ground arith))
        λ ok.
          let m = decode_arg_imm-Makes n (ground arith) in
          some-cases (Makes i) (shifted_size (decode_arg_imm s i n).0) (λ _ _. m) λ esize _ _. m

  pub decode_arg_cc-Makes : (n : AnyNode) → Makes i (decode_arg_cc s i n)
  unfolding decode_arg_cc
  decode_arg_cc-Makes n =
      if-cases (Makes i) (not (decode_arg_imm s i n).1) (λ _ no. absurd (ground arith))
        λ _ _. typed_place i _ _ (
          if-cases (λ (a : Argument). is_none a.kind ≡ false)
            (leb (u8 (argument_at (decode_arg_imm s i n).0 i).imm) 0x1f) (λ _. refl) λ _. refl)

  pub decode_arg_rel-Makes : (n : AnyNode) → Makes i (decode_arg_rel s i n)
  unfolding decode_arg_rel
  decode_arg_rel-Makes n =
      if-cases (Makes i) (not (decode_arg_imm s i n).1) (λ _ no. absurd (ground arith))
        λ _ _. typed_place i _ _ refl

  pub decode_node_sae-Makes : Makes i (decode_node_sae s i)
  unfolding decode_node_sae
  decode_node_sae-Makes _ = typed_place i _ _ refl

  pub decode_node_evh-Makes : Makes i (decode_node_evh s i)
  unfolding decode_node_evh
  decode_node_evh-Makes _ = typed_place i _ _ refl

  pub decode_node_rc-Makes : (encodedin : ℕ) → Makes i (decode_node_rc s i encodedin)
  unfolding decode_node_rc
  decode_node_rc-Makes encodedin _ = typed_place i _ _ refl

  moffs_of_size-Makes :
      (n : AnyNode) (nbytes : ℕ) (offset_dt : Datatype)
      → Makes i (moffs_of_size s i n nbytes offset_dt)
  unfolding moffs_of_size moffs_argument
  moffs_of_size-Makes n nbytes offset_dt =
      if-cases (Makes i) (ltb s.nb (s.pc + nbytes)) (λ _ no. absurd (ground arith))
        λ _ _. typed_place i _ _ refl

  pub decode_arg_moffs-Makes : (n : AnyNode) → Makes i (decode_arg_moffs s i n)
  unfolding decode_arg_moffs
  decode_arg_moffs-Makes n =
      if-cases (Makes i) (s.diagram.asz == 0) (λ _. moffs_of_size-Makes n 2 Datatype.s16)
        λ _.
          if-cases (Makes i) (s.diagram.asz == 1) (λ _. moffs_of_size-Makes n 4 Datatype.s32)
            λ _.
              if-cases (Makes i) (s.diagram.asz == 2) (λ _. moffs_of_size-Makes n 8 Datatype.s64)
                λ _ no. absurd (ground arith)

ptr_offset_of_size-Makes :
    (i : ℕ) (s : Internal) (seg nbytes : ℕ) (offset_dt : Datatype)
    → Makes i (ptr_offset_of_size s i seg nbytes offset_dt)
unfolding ptr_offset_of_size
ptr_offset_of_size-Makes i s seg nbytes offset_dt =
    if-cases (Makes i) (ltb s.nb (s.pc + nbytes)) (λ _ no. absurd (ground arith))
      λ _ _. typed_place i _ _ refl

module _ (i : ℕ) (s : Internal) where
  pub decode_arg_ptr-Makes : (n : AnyNode) → Makes i (decode_arg_ptr s i n)
  unfolding decode_arg_ptr
  decode_arg_ptr-Makes n =
      let s1 = advance (add_bytecode s (bytes_from s.address s.pc 2) BytecodeType.abs_seg).0 2 in
      if-cases (Makes i) (ltb s.nb (s.pc + 2)) (λ _ no. absurd (ground arith))
        λ _.
          if-cases (Makes i) (s.diagram.osz == 0)
            (λ _. ptr_offset_of_size-Makes i s1 _ 2 Datatype.s16)
            λ _.
              if-cases (Makes i) (s.diagram.osz == 1)
                (λ _. ptr_offset_of_size-Makes i s1 _ 4 Datatype.s32) λ _ no. absurd (ground arith)

  pub decode_arg_preg-Makes : (db : Database) (n : RegNode) → Makes i (decode_arg_preg db s i n)
  unfolding decode_arg_preg
  decode_arg_preg-Makes db n =
      let r = decode_arg_reg db s i n in
      if-cases (Makes i) (not r.1) (λ _ no. absurd (ground arith))
        λ ok.
          let m = decode_arg_reg-Makes i s db n (ground arith) in
          if-cases (Makes i) ((argument_at r.0 i).reg_value == register_k0)
            (λ _ _. typed_place i _ _ m)
            λ _ _.
              if-cases (λ (u : Internal). is_none (argument_at u i).kind ≡ false)
                (n.zeroing && r.0.diagram.z) (λ _. typed_place i _ _ m) λ _. typed_place i _ _ m
