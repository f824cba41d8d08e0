-- ===== src/X86/Nodes/Operands.antt =====
-- source/x86/decoder.c: memory arguments change the type of no other argument.
use amed.Base.{ℕ, ◌≡◌, refl, if-cases, some-cases, not, Bool, Option, some, none, ◌==◌}
use amed.Utils.Datatype.{get_datatype_size}
use amed.X86.Database.{RegNode, MemNode, SwizzleRow}
use amed.X86.State.{Argument, Memory, Internal}
use amed.X86.Arguments.Slots.{argument_at}
use amed.X86.Arguments.Memory.{
  optional_register, implicit_memory, decode_arg_mem, decode_arg_address, decode_node_sbcst,
  decode_node_bcst,
}
use amed.X86.Arguments.Swizzle.{
  decode_node_swz_reg, decode_node_swz_mem, retype_memory, scale_memory, broadcast_memory,
}
use amed.X86.Nodes.Others.{Others, Others-trans, still, placed, retouched, register_value-Others}

optional_register-Others :
    (i : ℕ) (s : Internal) (n : Option RegNode) → Others i s (optional_register s n).1
unfolding optional_register
optional_register-Others i s none = still refl
optional_register-Others i s (some n) = register_value-Others i s n

implicit_memory-Others :
    (i : ℕ) (s : Internal) (n : MemNode) (m : Memory) → Others i s (implicit_memory s n m).1
unfolding implicit_memory
implicit_memory-Others i s n m =
    Others-trans (optional_register-Others i s n.seg)
      (optional_register-Others i (optional_register s n.seg).1 n.base)

module _ (i : ℕ) (s : Internal) where
  abbrev Leaves : Internal × Bool → Type 0
  Leaves r = Others i s r.0

  pub decode_arg_mem-Others : (n : MemNode) → Others i s (decode_arg_mem s i n).0
  unfolding decode_arg_mem
  decode_arg_mem-Others n =
      let m =
        if-cases (λ (r : Memory × Internal). Others i s r.1) n.has_encodedin (λ _. still refl)
          λ _. implicit_memory-Others i s n _ in
      Others-trans m (placed _ refl)

  pub decode_arg_address-Others : (n : MemNode) → Others i s (decode_arg_address s i n).0
  unfolding decode_arg_address
  decode_arg_address-Others n =
      let m = decode_arg_mem-Others n in
      if-cases Leaves (not (decode_arg_mem s i n).1) (λ _. m) λ _. Others-trans m (placed _ refl)

  pub decode_node_sbcst-Others : (from to : ℕ) → Others i s (decode_node_sbcst s from to).0
  unfolding decode_node_sbcst
  decode_node_sbcst-Others from to =
      some-cases Leaves s.vmem (λ _. still refl) λ v _. retouched s _ v _ refl refl

  pub decode_node_bcst-Others : Others i s (decode_node_bcst s).0
  unfolding decode_node_bcst
  decode_node_bcst-Others =
      some-cases Leaves s.vmem (λ _. still refl)
        λ v _. if-cases Leaves s.diagram.bp (λ _. retouched s _ v _ refl refl) λ _. still refl

  pub decode_node_swz_reg-Others : Others i s (decode_node_swz_reg s).0
  unfolding decode_node_swz_reg
  decode_node_swz_reg-Others =
      some-cases Leaves s.vreg (λ _. still refl) λ v _. retouched s _ v _ refl refl

  scale_memory-kind : (row : SwizzleRow) (a : Argument) → (scale_memory s row a).kind ≡ a.kind
  unfolding scale_memory
  scale_memory-kind row a =
      if-cases (λ (r : Argument). r.kind ≡ a.kind) s.uses_compressed_disp (λ _. refl) λ _. refl

  pub decode_node_swz_mem-Others :
      (table : ℕ → SwizzleRow) → Others i s (decode_node_swz_mem s table).0
  unfolding decode_node_swz_mem retype_memory broadcast_memory
  decode_node_swz_mem-Others table =
      let row = table s.diagram.sss in
      some-cases Leaves s.vmem (λ _. still refl)
        λ v _.
          let scaled = scale_memory-kind row (retype_memory row (argument_at s v)) in
          if-cases Leaves row.reserved (λ _. still refl)
            λ _.
              if-cases Leaves (get_datatype_size row.mdt == 0) (λ _. retouched s _ v _ refl refl)
                λ _.
                  if-cases Leaves (not row.broadcasting) (λ _. retouched s _ v _ scaled refl)
                    λ _.
                      if-cases Leaves (get_datatype_size row.vdt == 0)
                        (λ _. retouched s _ v _ scaled refl) λ _. retouched s _ v _ scaled refl
