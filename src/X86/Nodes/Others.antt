-- ===== src/X86/Nodes/Others.antt =====
-- source/x86/decoder.c: an argument's node changes the type of no other argument.
use amed.Base.{
  ℕ, ◌≡◌, refl, ◌∙◌, ap, if-cases, some-cases, not, ◌&&◌, Bool, true, false, ◌==◌, if◌then◌else◌,
  leb, ==_iff, length, List, sym,
}
use amed.X86.Names.{BytecodeType, register_k0}
use amed.X86.Symbols.{encodedin_is4}
use amed.X86.Database.{RegNode, Database}
use amed.X86.State.{Argument, Internal}
use amed.X86.Fetch.{add_bytecode, advance_byte, peek_byte, max_bytecode_count}
use amed.X86.Register.{get_is4_value, decode_node_register_value}
use amed.X86.Arguments.Slots.{argument_at, set_argument}
use amed.X86.Arguments.Registers.{decode_arg_reg, decode_arg_preg, decode_arg_vreg}

-- From `s` to `t` every argument but the one at `i` keeps its type.
pub record Others (i : ℕ) (s t : Internal) : Type 0 where
  pub same_kind : (j : ℕ) → (j == i) ≡ false → (argument_at t j).kind ≡ (argument_at s j).kind

pub Others-trans : {i : ℕ} {s t u : Internal} → Others i s t → Others i t u → Others i s u
Others-trans a b = record { same_kind = λ j h. b.same_kind j h ∙ a.same_kind j h }

-- A step that leaves the array as it was, one that writes the place `i`, and one that writes any
-- place but leaves the type there.
pub still : {i : ℕ} {s t : Internal} → t.insn.arguments ≡ s.insn.arguments → Others i s t
still e = record { same_kind = λ j _. ap (λ (g : ℕ → Argument). (g j).kind) e }

pub placed :
    {i : ℕ} {s t : Internal} (a : Argument)
    → t.insn.arguments ≡ (set_argument s i a).insn.arguments
    → Others i s t
placed a e = record { same_kind = λ j h. ap (λ (g : ℕ → Argument). (g j).kind) e ∙ rw h refl }

same_type :
    (s : Internal) (v j : ℕ) (a : Argument) (b : Bool)
    → a.kind ≡ (argument_at s v).kind
    → (j == v) ≡ b
    → (if b then a else argument_at s j).kind ≡ (argument_at s j).kind
same_type s v j a true k h = k ∙ ap (λ (t : ℕ). (argument_at s t).kind) (sym ((==_iff j v).0 h))
same_type s v j a false k h = refl

pub retouched :
    {i : ℕ} (s t : Internal) (v : ℕ) (a : Argument)
    → a.kind ≡ (argument_at s v).kind
    → t.insn.arguments ≡ (set_argument s v a).insn.arguments
    → Others i s t
retouched s t v a k e = record {
  same_kind = λ j _. ap (λ (g : ℕ → Argument). (g j).kind) e ∙ same_type s v j a (j == v) k refl;
}

pub add_bytecode-arguments :
    (s : Internal) (bytes : List ℕ) (kind : BytecodeType)
    → (add_bytecode s bytes kind).0.insn.arguments ≡ s.insn.arguments
unfolding add_bytecode
add_bytecode-arguments s bytes kind =
    if-cases (λ (r : Internal × Bool). r.0.insn.arguments ≡ s.insn.arguments)
      (leb max_bytecode_count (length s.insn.bytecodes)) (λ _. refl) λ _. refl

module _ (i : ℕ) (s : Internal) where
  pub get_is4_value-Others : Others i s (get_is4_value s).1
  unfolding get_is4_value advance_byte
  get_is4_value-Others =
      if-cases (λ (r : ℕ × Internal). Others i s r.1) s.diagram.has_is4 (λ _. still refl)
        λ _.
          some-cases (λ (r : ℕ × Internal). Others i s r.1) (peek_byte s) (λ _. still refl)
            λ is4 e. still (
              add_bytecode-arguments
                (advance_byte (record s { diagram = record (s.diagram) { is4 = is4 } })) _ _)

  pub register_value-Others : (n : RegNode) → Others i s (decode_node_register_value s n).1
  unfolding decode_node_register_value
  register_value-Others n =
      if-cases (λ (r : ℕ × Internal). Others i s r.1) (not n.has_encodedin) (λ _. still refl)
        λ _.
          if-cases (λ (r : ℕ × Internal). Others i s r.1) (n.value == encodedin_is4)
            (λ _. get_is4_value-Others) λ _. still refl

  pub decode_arg_reg-Others : (db : Database) (n : RegNode) → Others i s (decode_arg_reg db s i n).0
  unfolding decode_arg_reg
  decode_arg_reg-Others db n =
      let m = register_value-Others n in
      if-cases (Others i s) n.read (λ _. Others-trans m (placed _ refl))
        λ _. Others-trans m (placed _ refl)

  pub decode_arg_vreg-Others :
      (db : Database) (n : RegNode) → Others i s (decode_arg_vreg db s i n).0
  unfolding decode_arg_vreg
  decode_arg_vreg-Others db n =
      let m = decode_arg_reg-Others db n in
      if-cases (λ (r : Internal × Bool). Others i s r.0) (not (decode_arg_reg db s i n).1) (λ _. m)
        λ _. Others-trans m (placed _ refl)

  pub decode_arg_preg-Others :
      (db : Database) (n : RegNode) → Others i s (decode_arg_preg db s i n).0
  unfolding decode_arg_preg
  decode_arg_preg-Others db n =
      let m = decode_arg_reg-Others db n in
      let r = decode_arg_reg db s i n in
      if-cases (λ (t : Internal × Bool). Others i s t.0) (not r.1) (λ _. m)
        λ _.
          if-cases (λ (t : Internal × Bool). Others i s t.0)
            ((argument_at r.0 i).reg_value == register_k0) (λ _. Others-trans m (placed _ refl))
            λ _. Others-trans m (
              if-cases
                (λ (u : Internal).
                  Others i r.0 (record u { insn = record (u.insn) { is_predicated = true } }))
                (n.zeroing && r.0.diagram.z) (λ _. placed _ refl) λ _. placed _ refl)
