-- ===== src/X86/Nodes/Typed.antt =====
-- source/x86/decoder.c, `decode_nodes`: an argument that is counted stays as its node left it, with
-- a type.
use amed.Base.{
  ℕ, ◌+◌, ◌<◌, ◌≡◌, refl, ◌∙◌, ap, arith, if-cases, List, [], ◌∷◌, Bool, true, false, ◌⊎◌, inl, inr,
}
use amed.X86.Database.{Node, Database}
use amed.X86.State.{Internal}
use amed.X86.Arguments.Slots.{argument_at, set_argument, clear_argument}
use amed.X86.Nodes.{dispatch_node, decode_node, next_slot, nodes_loop, is_none}
use amed.X86.Nodes.Others.{
  Others, Others-trans, still, placed, decode_arg_reg-Others, decode_arg_vreg-Others,
  decode_arg_preg-Others,
}
use amed.X86.Nodes.Operands.{
  decode_arg_mem-Others, decode_arg_address-Others, decode_node_sbcst-Others,
  decode_node_bcst-Others, decode_node_swz_reg-Others, decode_node_swz_mem-Others,
}
use amed.X86.Nodes.Immediates.{
  decode_arg_imm-Others, decode_arg_imm_shift-Others, decode_arg_imm_rotate-Others,
  decode_arg_cc-Others, decode_arg_rel-Others, decode_node_sae-Others, decode_node_evh-Others,
  decode_node_rc-Others, decode_arg_moffs-Others, decode_arg_ptr-Others,
}

module _ (db : Database) (s : Internal) (i : ℕ) where
  dispatch_node-Others : (n : Node) → Others i s (dispatch_node db s i n).0
  unfolding dispatch_node
  dispatch_node-Others (Node.reg n) = decode_arg_reg-Others i s db n
  dispatch_node-Others (Node.vreg n) = decode_arg_vreg-Others i s db n
  dispatch_node-Others (Node.preg n) = decode_arg_preg-Others i s db n
  dispatch_node-Others (Node.mem n) = decode_arg_mem-Others i s n
  dispatch_node-Others (Node.agen n) = decode_arg_address-Others i s n
  dispatch_node-Others (Node.mib n) = decode_arg_address-Others i s n
  dispatch_node-Others (Node.imm n) = decode_arg_imm-Others i s n
  dispatch_node-Others (Node.rel n) = decode_arg_rel-Others i s n
  dispatch_node-Others (Node.moffs n) = decode_arg_moffs-Others i s n
  dispatch_node-Others (Node.ptr n) = decode_arg_ptr-Others i s n
  dispatch_node-Others (Node.shift n) = decode_arg_imm_shift-Others i s n
  dispatch_node-Others (Node.rotate n) = decode_arg_imm_rotate-Others i s n
  dispatch_node-Others (Node.ctl n) = decode_arg_imm-Others i s n
  dispatch_node-Others (Node.cc n) = decode_arg_cc-Others i s n
  dispatch_node-Others Node.sae = decode_node_sae-Others i s
  dispatch_node-Others Node.evh = decode_node_evh-Others i s
  dispatch_node-Others (Node.rc encodedin) = decode_node_rc-Others i s encodedin
  dispatch_node-Others Node.bcst = decode_node_bcst-Others i s
  dispatch_node-Others (Node.sbcst from to) = decode_node_sbcst-Others i s from to
  dispatch_node-Others Node.swz_reg = decode_node_swz_reg-Others i s
  dispatch_node-Others (Node.swz_mem table) = decode_node_swz_mem-Others i s table
  dispatch_node-Others Node.other = still refl

decode_node-Others :
    (db : Database) (s : Internal) (i : ℕ) (n : Node) → Others i s (decode_node db s i n).0
unfolding decode_node
decode_node-Others db s i n =
    let s1 = set_argument s i (clear_argument (argument_at s i)) in
    let start : Others i s s1 = placed _ refl in Others-trans start (dispatch_node-Others db s1 i n)

-- The arguments below `count` have a type.
abbrev pub Typed : Internal → ℕ → Type 0
Typed s count = (j : ℕ) → j < count → is_none (argument_at s j).kind ≡ false

last_or_below : (i j : ℕ) → j < i + 1 → (j ≡ i) ⊎ (j < i)
last_or_below i j lt = omega arith

next_slot-Typed : (s s1 : Internal) (i : ℕ) → Others i s s1 → Typed s i → Typed s1 (next_slot s1 i)
next_slot-Typed s s1 i others typed j =
    if-cases (λ (t : ℕ). j < t → is_none (argument_at s1 j).kind ≡ false)
      (is_none (argument_at s1 i).kind) (λ _. below)
      λ e lt. elim (last_or_below i j lt) [
        | inl same ↦ ap (λ (t : ℕ). is_none (argument_at s1 t).kind) same ∙ e
        | inr less ↦ below less
      ]
  where
    below : j < i → is_none (argument_at s1 j).kind ≡ false
    below lt = ap is_none (others.same_kind j (ground arith)) ∙ typed j lt

pub nodes_loop-Typed :
    (db : Database) (s : Internal) (i : ℕ) (ns : List Node)
    → Typed s i
    → (nodes_loop db s i ns).1 ≡ true
    → Typed (nodes_loop db s i ns).0 (nodes_loop db s i ns).0.insn.argument_count
unfolding nodes_loop
nodes_loop-Typed db s i [] typed = λ _. typed
nodes_loop-Typed db s i (n ∷ ns) typed =
    let s1 = (decode_node db s i n).0 in
    let rest =
      nodes_loop-Typed db s1 (next_slot s1 i) ns
        (next_slot-Typed s s1 i (decode_node-Others db s i n) typed) in
    if-cases (λ (r : Internal × Bool). r.1 ≡ true → Typed r.0 r.0.insn.argument_count)
      (decode_node db s i n).1 (λ _. rest) λ _ no. absurd (ground arith)
