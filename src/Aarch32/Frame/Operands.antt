-- ===== src/Aarch32/Frame/Operands.antt =====
-- The lists, the memory arguments and the nodes of source/aarch32/decoder.c whose decoding C defines for
-- an opcode.
use amed.Base.{
  ℕ, zero, suc, ◌+◌, ◌≤◌, ◌≡◌, refl, sym, subst, ap, arith, Bool, true, ◌&&◌, Option, none, some,
  List, leb, if-cases, some-cases, u32, length,
}
use amed.Aarch32.Database.{Any, ImmReg, MemNode, ListNode, VectorListNode, Node, Database}
use amed.Aarch32.State.{Argument, Internal, Result}
use amed.Aarch32.Fields.{lookup_tv, decode_any, value_of}
use amed.Aarch32.Arguments.Registers.{decode_arg_reg}
use amed.Aarch32.Arguments.Memory.{
  decode_anynymous_immreg, value_or, finish_mem, decode_align, decode_offset, decode_arg_mem,
}
use amed.Aarch32.Arguments.Enums.{
  enum_argument_type, decode_enum, decode_arg_enum, decode_arg_iflags, decode_arg_sysreg,
}
use amed.Aarch32.Arguments.Lists.{
  set_list, decode_arg_slist, decode_arg_glist, registers_loop, half_int, base_list,
  decode_arg_fslist, decode_arg_fdlist, steps_loop, vector_list, decode_arg_vlist,
}
use amed.Aarch32.Arguments.Lists.Registers.{decode_arg_glist-set_bits}
use amed.Aarch32.Nodes.{dispatch_node}
use amed.Aarch32.Frame.Registers.{decode_arg_reg-Kept}
use amed.Aarch32.Frame.Immediates.{decode_arg_enum-Kept}
use amed.Aarch32.Frame.Memory.{decode_anynymous_immreg-Kept}
use amed.Aarch32.Frame.Defined.{is_defined, Defined, andthen-Defined, decode_arg_reg-Defined}
use amed.Aarch32.Frame.Readable.{
  node_imm_fits, shifter_fits, wreg_fits, label_fits, immreg_fits, both, decode_arg_imm-Defined,
  decode_arg_vreg-Defined, decode_arg_ereg-Defined, decode_arg_regsh-Defined,
  decode_arg_wreg-Defined, decode_arg_immsh-Defined, decode_arg_label-Defined,
}

-- A list has room for 32 registers.
abbrev pub count_fits : (ℕ → ℕ) → Option ℕ → Bool
count_fits f none = true
count_fits f (some count) = leb (f count) 32

length-registers_loop :
    (limit count base : ℕ) → length ((registers_loop limit count base).0) ≤ count
unfolding registers_loop
length-registers_loop limit zero base = omega arith
length-registers_loop limit (suc count) base =
    ground (arith, length-registers_loop limit count (base + 1))

length-steps_loop : (inc count base j : ℕ) → length ((steps_loop inc count base j).0) ≤ count
unfolding steps_loop
length-steps_loop inc zero base j = omega arith
length-steps_loop inc (suc count) base j =
    ground (arith, length-steps_loop inc count base (u32 (j + inc)))

set_list-Defined :
    (s : Internal) (a : Argument) (registers : List ℕ)
    → length registers ≤ 32
    → Defined (set_list s a registers)
unfolding set_list
set_list-Defined s a registers h =
    let fits : leb (length registers) 32 ≡ true = ground arith in rw fits refl

base_list-Defined :
    (limit : ℕ) (s : Internal) (a : Argument) (count : ℕ)
    → leb count 32 ≡ true
    → Defined (base_list limit s a count)
unfolding base_list
base_list-Defined limit s a count h =
    set_list-Defined _ _ _ (ground (arith, h, length-registers_loop limit count (a.reg_value)))

vector_list-Defined :
    (s : Internal) (a : Argument) (count inc : ℕ)
    → leb count 32 ≡ true
    → Defined (vector_list s a count inc)
unfolding vector_list
vector_list-Defined s a count inc h =
    set_list-Defined _ _ _ (ground (arith, h, length-steps_loop inc count (a.reg_value) 0))

-- A count that an argument asks for.
counted-Defined :
    (g : ℕ → ℕ) (o : Option ℕ) (x : Result) (f : ℕ → Result)
    → Defined x
    → ((count : ℕ) → leb (g count) 32 ≡ true → Defined (f count))
    → count_fits g o ≡ true
    → Defined (elim o [ none ↦ x | some count ↦ f count ])
counted-Defined g none x f p q h = p
counted-Defined g (some count) x f p q h = q count h

module _ (db : Database) (opcode : ℕ) where
  abbrev pub mem_fits : MemNode → Bool
  mem_fits n =
      immreg_fits db opcode n.base
      && elim n.regoff [ none ↦ true | some offset ↦ immreg_fits db opcode offset ]

  -- Whether C defines the decoding of a node.
  unfoldable pub is_readable : Node → Bool
  is_readable (Node.wreg n) = wreg_fits db opcode n
  is_readable (Node.regsh n sh) = shifter_fits db opcode sh
  is_readable (Node.fslist n) = count_fits (λ c. c) (value_of (decode_any db opcode n.count))
  is_readable (Node.fdlist n) = count_fits half_int (value_of (decode_any db opcode n.count))
  is_readable (Node.vlist n) =
      immreg_fits db opcode n.base && count_fits (λ c. c) (value_of (decode_any db opcode n.count))
  is_readable (Node.imm n) = node_imm_fits db opcode n
  is_readable (Node.label n) = label_fits db opcode n
  is_readable (Node.mem n) = mem_fits n
  is_readable _ = true

module _ (db : Database) (s : Internal) where
  decode_anynymous_immreg-Defined :
      (a : Argument) (n : ImmReg)
      → immreg_fits db s.opcode n ≡ true
      → Defined (decode_anynymous_immreg db s a n)
  unfolding decode_anynymous_immreg
  decode_anynymous_immreg-Defined a (ImmReg.reg n) h = decode_arg_reg-Defined db s a n
  decode_anynymous_immreg-Defined a (ImmReg.vreg n) h = decode_arg_vreg-Defined db s a n
  decode_anynymous_immreg-Defined a (ImmReg.ereg n) h = decode_arg_ereg-Defined db s a n
  decode_anynymous_immreg-Defined a (ImmReg.regsh n sh) h = decode_arg_regsh-Defined db s a n sh h
  decode_anynymous_immreg-Defined a (ImmReg.imm n) h = decode_arg_imm-Defined db s a n h
  decode_anynymous_immreg-Defined a (ImmReg.immsh n sh) h = decode_arg_immsh-Defined db s a n sh h
  decode_anynymous_immreg-Defined a ImmReg.other h = refl

  finish_mem-Defined :
      (a : Argument) (n : MemNode) (add align : ℕ) → Defined (finish_mem s a n add align)
  unfolding finish_mem
  finish_mem-Defined a n add align = refl

  decode_align-Defined :
      (n : MemNode) (add : ℕ) (a : Argument) → Defined (decode_align db n add s a)
  unfolding decode_align
  decode_align-Defined n add a =
      some-cases Defined (value_or db (s.opcode) 0 (n.align)) (λ _. refl)
        (λ align _. finish_mem-Defined a n add align)

offset-Defined :
    (db : Database) (n : MemNode) (offset : Option ImmReg) (s : Internal) (a : Argument)
    → (elim offset as (λ _. Bool) [ none ↦ true | some m ↦ immreg_fits db s.opcode m ]) ≡ true
    → Defined (decode_offset db (record n { regoff = offset }) s a)
unfolding decode_offset decode_align finish_mem
offset-Defined db n none s a h = decode_align-Defined db s n 1 a
offset-Defined db n (some m) s a h =
    some-cases Defined (value_or db (s.opcode) 1 (n.add)) (λ _. refl)
      (λ add _.
        andthen-Defined s (decode_anynymous_immreg db s a m) _
          (decode_anynymous_immreg-Kept db s a m) (decode_anynymous_immreg-Defined db s a m h)
          (λ t b e. decode_align-Defined db t n add _))

module _ (db : Database) (s : Internal) (a : Argument) where
  decode_arg_mem-Defined :
      (n : MemNode) → mem_fits db s.opcode n ≡ true → Defined (decode_arg_mem db s a n)
  unfolding decode_arg_mem
  decode_arg_mem-Defined n h =
      let (base, offset) = both _ _ h in
      andthen-Defined s (decode_anynymous_immreg db s _ (n.base)) _
        (decode_anynymous_immreg-Kept db s _ (n.base))
        (decode_anynymous_immreg-Defined db s _ (n.base) base)
        (λ t b e. offset-Defined db n (n.regoff) t _ (
          subst
            (λ (o : ℕ).
              (elim (n.regoff) as (λ _. Bool) [ none ↦ true | some m ↦ immreg_fits db o m ]) ≡ true)
            (sym e) offset))

  decode_arg_glist-Defined : (n : Any) → Defined (decode_arg_glist db s a n)
  decode_arg_glist-Defined n = ap is_defined (decode_arg_glist-set_bits db s a n)

  decode_arg_slist-Defined : (n : Any) → Defined (decode_arg_slist db s a n)
  unfolding decode_arg_slist
  decode_arg_slist-Defined n = set_list-Defined _ _ _ (omega arith)

  decode_arg_fslist-Defined :
      (n : ListNode)
      → count_fits (λ c. c) (value_of (decode_any db s.opcode n.count)) ≡ true
      → Defined (decode_arg_fslist db s a n)
  unfolding decode_arg_fslist
  decode_arg_fslist-Defined n h =
      andthen-Defined s (decode_arg_reg db s a (n.base)) _ (decode_arg_reg-Kept db s a (n.base))
        (decode_arg_reg-Defined db s a (n.base))
        (λ t b e.
          counted-Defined (λ c. c) (value_of (decode_any db (t.opcode) (n.count))) _ _ refl
            (λ count few. base_list-Defined _ t b count few)
            (subst (λ (o : ℕ). count_fits (λ c. c) (value_of (decode_any db o (n.count))) ≡ true)
              (sym e) h))

  decode_arg_fdlist-Defined :
      (n : ListNode)
      → count_fits half_int (value_of (decode_any db s.opcode n.count)) ≡ true
      → Defined (decode_arg_fdlist db s a n)
  unfolding decode_arg_fdlist
  decode_arg_fdlist-Defined n h =
      andthen-Defined s (decode_arg_reg db s a (n.base)) _ (decode_arg_reg-Kept db s a (n.base))
        (decode_arg_reg-Defined db s a (n.base))
        (λ t b e.
          counted-Defined half_int (value_of (decode_any db (t.opcode) (n.count))) _ _ refl
            (λ count few. base_list-Defined _ t b _ few)
            (subst (λ (o : ℕ). count_fits half_int (value_of (decode_any db o (n.count))) ≡ true)
              (sym e) h))

  decode_arg_vlist-Defined :
      (n : VectorListNode)
      → immreg_fits db s.opcode n.base
          && count_fits (λ c. c) (value_of (decode_any db s.opcode n.count))
        ≡ true
      → Defined (decode_arg_vlist db s a n)
  unfolding decode_arg_vlist
  decode_arg_vlist-Defined n h =
      let (base, few) = both _ _ h in
      andthen-Defined s (decode_anynymous_immreg db s a (n.base)) _
        (decode_anynymous_immreg-Kept db s a (n.base))
        (decode_anynymous_immreg-Defined db s a (n.base) base)
        (λ t b e.
          counted-Defined (λ c. c) (value_of (decode_any db (t.opcode) (n.count))) _ _ refl
            (λ count small.
              some-cases Defined (value_of (decode_any db (t.opcode) (n.inc))) (λ _. refl)
                (λ inc _. vector_list-Defined t b count inc small))
            (subst (λ (o : ℕ). count_fits (λ c. c) (value_of (decode_any db o (n.count))) ≡ true)
              (sym e) few))

  decode_arg_enum-Defined : (n : Any) → Defined (decode_arg_enum db s a n)
  unfolding decode_arg_enum decode_enum
  decode_arg_enum-Defined n =
      some-cases Defined (enum_argument_type (n.enum_type)) (λ _. refl)
        (λ kind _.
          if-cases Defined (n.has_encodedin)
            (λ _.
              some-cases Defined (n.table) (λ _. refl)
                (λ items _. some-cases Defined (lookup_tv items _) (λ _. refl) (λ _ _. refl)))
            (λ _. refl))

  decode_arg_iflags-Defined : (n : Any) → Defined (decode_arg_iflags db s a n)
  unfolding decode_arg_iflags
  decode_arg_iflags-Defined n =
      some-cases Defined (value_of (decode_any db (s.opcode) n)) (λ _. refl) (λ _ _. refl)

  decode_arg_sysreg-Defined : (n : Any) → Defined (decode_arg_sysreg db s a n)
  unfolding decode_arg_sysreg
  decode_arg_sysreg-Defined n =
      andthen-Defined s (decode_arg_enum db s a n) _ (decode_arg_enum-Kept db s a n)
        (decode_arg_enum-Defined n) (λ t b e. refl)

  pub dispatch_node-Defined :
      (n : Node) → is_readable db s.opcode n ≡ true → Defined (dispatch_node db s a n)
  unfolding dispatch_node is_readable
  dispatch_node-Defined Node.skip h = refl
  dispatch_node-Defined (Node.enum n) h = decode_arg_enum-Defined n
  dispatch_node-Defined (Node.sysreg n) h = decode_arg_sysreg-Defined n
  dispatch_node-Defined (Node.reg n) h = decode_arg_reg-Defined db s a n
  dispatch_node-Defined (Node.vreg n) h = decode_arg_vreg-Defined db s a n
  dispatch_node-Defined (Node.ereg n) h = decode_arg_ereg-Defined db s a n
  dispatch_node-Defined (Node.wreg n) h = decode_arg_wreg-Defined db s a n h
  dispatch_node-Defined (Node.regsh n sh) h = decode_arg_regsh-Defined db s a n sh h
  dispatch_node-Defined (Node.glist n) h = decode_arg_glist-Defined n
  dispatch_node-Defined (Node.slist n) h = decode_arg_slist-Defined n
  dispatch_node-Defined (Node.fslist n) h = decode_arg_fslist-Defined n h
  dispatch_node-Defined (Node.fdlist n) h = decode_arg_fdlist-Defined n h
  dispatch_node-Defined (Node.vlist n) h = decode_arg_vlist-Defined n h
  dispatch_node-Defined (Node.imm n) h = decode_arg_imm-Defined db s a n h
  dispatch_node-Defined (Node.label n) h = decode_arg_label-Defined db s a n h
  dispatch_node-Defined (Node.mem n) h = decode_arg_mem-Defined n h
  dispatch_node-Defined (Node.iflags n) h = decode_arg_iflags-Defined n
  dispatch_node-Defined Node.other h = refl
