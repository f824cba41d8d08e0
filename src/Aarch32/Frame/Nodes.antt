-- ===== src/Aarch32/Frame/Nodes.antt =====
-- The loops over the arguments, the templates and the aliases of source/aarch32/decoder.c, and what
-- they do to the IT block.
use amed.Base.{
  ℕ, ◌+◌, ◌≤◌, ◌<◌, ◌≡◌, refl, sym, ◌∙◌, subst, arith, Bool, true, false, Option, none, some, List,
  [], ◌∷◌, length, ◌==◌, if-cases, bit_and,
}
use amed.Base.Text.{◌>>=◌}
use amed.Aarch32.Names.{iform_it}
use amed.Aarch32.Database.{Node, Database}
use amed.Aarch32.State.{ItBlock, Argument, Internal, Result}
use amed.Aarch32.It.{
  it_conditions, as_bytes, decode_it, decode_conditional_execution,
  decode_thumb_conditional_execution, decode_arm_conditional_execution,
}
use amed.Aarch32.Nodes.{dispatch_node, decode_node, set_argument, nodes_loop, decode_execution}
use amed.Aarch32.Frame.{Frame, Kept, read-Kept, failed-Kept}
use amed.Aarch32.Frame.Registers.{
  decode_arg_reg-Kept, decode_arg_vreg-Kept, decode_arg_ereg-Kept, decode_arg_wreg-Kept,
  decode_arg_regsh-Kept,
}
use amed.Aarch32.Frame.Immediates.{
  decode_arg_imm-Kept, decode_arg_label-Kept, decode_arg_enum-Kept, decode_arg_iflags-Kept,
  decode_arg_sysreg-Kept,
}
use amed.Aarch32.Frame.Memory.{decode_arg_mem-Kept}
use amed.Aarch32.Frame.Lists.{
  decode_arg_slist-Kept, decode_arg_glist-Kept, decode_arg_fslist-Kept, decode_arg_fdlist-Kept,
  decode_arg_vlist-Kept,
}

-- An IT block with four conditions, whose index is the place of one.
pub record IsValid (b : ItBlock) : Type 0 where
  pub counted : b.count ≤ 4
  pub indexed : b.index < 4
  pub complete : length b.conditions ≡ 4

-- From `s` to `t` the opcode, the length and the instruction set stay, an IT block stays valid, and
-- stays as it is in A32.
pub record Keeps (s t : Internal) : Type 0 where
  pub same_opcode : t.opcode ≡ s.opcode
  pub same_length : t.insn.length ≡ s.insn.length
  pub same_arm : t.is_arm ≡ s.is_arm
  pub still_valid : IsValid s.itblock → IsValid t.itblock
  pub arm_itblock : s.is_arm ≡ true → t.itblock ≡ s.itblock

pub Frame-Keeps : (s t : Internal) → Frame s t → Keeps s t
Frame-Keeps s t f = record {
  same_opcode = f.same_opcode;
  same_length = f.same_length;
  same_arm = f.same_arm;
  still_valid = λ v. subst IsValid (sym f.same_itblock) v;
  arm_itblock = λ _. f.same_itblock;
}

pub Keeps-trans : (s t u : Internal) → Keeps s t → Keeps t u → Keeps s u
Keeps-trans s t u f g = record {
  same_opcode = g.same_opcode ∙ f.same_opcode;
  same_length = g.same_length ∙ f.same_length;
  same_arm = g.same_arm ∙ f.same_arm;
  still_valid = λ v. g.still_valid (f.still_valid v);
  arm_itblock = λ e. g.arm_itblock (f.same_arm ∙ e) ∙ f.arm_itblock e;
}

-- What a call ends in: a step that C leaves undefined, or a state that `s` keeps.
pub data Outcome (s : Internal) : Option (Internal × Bool) → Type 0 where
  undefined : Outcome s none
  returns : (t : Internal) (ok : Bool) → Keeps s t → Outcome s (some (t, ok))

pub Outcome-trans :
    (s t : Internal) (o : Option (Internal × Bool)) → Keeps s t → Outcome t o → Outcome s o
Outcome-trans s t _ f undefined = undefined
Outcome-trans s t _ f (returns u ok g) = returns u ok (Keeps-trans s t u f g)

pub Outcome-bind :
    (s : Internal) (o : Option (Internal × Bool)) (k : Internal × Bool → Option (Internal × Bool))
    → Outcome s o
    → ((t : Internal) (ok : Bool) → Outcome t (k (t, ok)))
    → Outcome s (o >>= k)
Outcome-bind s _ k undefined h = undefined
Outcome-bind s _ k (returns t ok f) h = Outcome-trans s t _ f (h t ok)

-- A state that differs in the other fields only.
pub flags-Keeps :
    (s t : Internal)
    → t.opcode ≡ s.opcode
    → t.insn.length ≡ s.insn.length
    → t.is_arm ≡ s.is_arm
    → t.itblock ≡ s.itblock
    → Keeps s t
flags-Keeps s t p q r e =
    Frame-Keeps s t (record { same_opcode = p; same_length = q; same_arm = r; same_itblock = e })

-- The block that an IT instruction begins.
it_conditions_shape :
    (mask first : ℕ)
    → ((it_conditions mask first).0 ≤ 4) × (length (as_bytes ((it_conditions mask first).1)) ≡ 4)
unfolding it_conditions
it_conditions_shape mask first = ground arith

decode_it-Keeps : (s : Internal) → s.is_arm ≡ false → Keeps s (decode_it s)
unfolding decode_it
decode_it-Keeps s thumb =
    let (small, four) =
      it_conditions_shape (bit_and (s.opcode) 0x0f) ((s.insn.arguments 0).token) in
    record {
      same_opcode = refl;
      same_length = refl;
      same_arm = refl;
      still_valid = λ _. record { counted = small; indexed = omega arith; complete = four };
      arm_itblock = λ arm. absurd cc;
    }

conditional-Keeps : (s : Internal) (c : ℕ) → Keeps s (decode_conditional_execution s c)
unfolding decode_conditional_execution
conditional-Keeps s c = flags-Keeps s _ refl refl refl refl

pub decode_execution-Keeps : (s : Internal) → Keeps s (decode_execution s)
unfolding decode_execution decode_thumb_conditional_execution decode_arm_conditional_execution
decode_execution-Keeps s =
    if-cases (Keeps s) (s.is_arm) (λ _. conditional-Keeps s _)
      (λ thumb.
        if-cases (Keeps s) (s.ptemplate.iform == iform_it) (λ _. decode_it-Keeps s thumb)
          (λ _. conditional-Keeps s _))

module _ (db : Database) where
  pub dispatch_node-Kept :
      (s : Internal) (a : Argument) (n : Node) → Kept s (dispatch_node db s a n)
  unfolding dispatch_node
  dispatch_node-Kept s a Node.skip = read-Kept s a
  dispatch_node-Kept s a (Node.enum n) = decode_arg_enum-Kept db s a n
  dispatch_node-Kept s a (Node.sysreg n) = decode_arg_sysreg-Kept db s a n
  dispatch_node-Kept s a (Node.reg n) = decode_arg_reg-Kept db s a n
  dispatch_node-Kept s a (Node.vreg n) = decode_arg_vreg-Kept db s a n
  dispatch_node-Kept s a (Node.ereg n) = decode_arg_ereg-Kept db s a n
  dispatch_node-Kept s a (Node.wreg n) = decode_arg_wreg-Kept db s a n
  dispatch_node-Kept s a (Node.regsh n sh) = decode_arg_regsh-Kept db s a n sh
  dispatch_node-Kept s a (Node.glist n) = decode_arg_glist-Kept db s a n
  dispatch_node-Kept s a (Node.slist n) = decode_arg_slist-Kept db s a n
  dispatch_node-Kept s a (Node.fslist n) = decode_arg_fslist-Kept db s a n
  dispatch_node-Kept s a (Node.fdlist n) = decode_arg_fdlist-Kept db s a n
  dispatch_node-Kept s a (Node.vlist n) = decode_arg_vlist-Kept db s a n
  dispatch_node-Kept s a (Node.imm n) = decode_arg_imm-Kept db s a n
  dispatch_node-Kept s a (Node.label n) = decode_arg_label-Kept db s a n
  dispatch_node-Kept s a (Node.mem n) = decode_arg_mem-Kept db s a n
  dispatch_node-Kept s a (Node.iflags n) = decode_arg_iflags-Kept db s a n
  dispatch_node-Kept s a Node.other = failed-Kept s a

  -- One turn of the loop over the nodes.
  turn-Outcome :
      (s : Internal) (i : ℕ) (r : Result) (rest : Internal → Argument → Option (Internal × Bool))
      → Kept s r
      → ((t : Internal) (a : Argument) → Outcome t (rest t a))
      → Outcome s (elim r [
        | Result.decoded t a ↦ rest t a
        | Result.failed t a ↦ some (set_argument t i a, false)
        | Result.undefined ↦ none
      ])
  unfolding Kept
  turn-Outcome s i (Result.decoded t a) rest f h = Outcome-trans s t _ (Frame-Keeps s t f) (h t a)
  turn-Outcome s i (Result.failed t a) rest f h =
      returns _ false (Keeps-trans s t _ (Frame-Keeps s t f) (flags-Keeps t _ refl refl refl refl))
  turn-Outcome s i Result.undefined rest f h = undefined

  pub nodes_loop-Outcome :
      (s : Internal) (i : ℕ) (ns : List Node) → Outcome s (nodes_loop db s i ns)
  unfolding nodes_loop decode_node
  nodes_loop-Outcome s i [] = returns _ true (flags-Keeps s _ refl refl refl refl)
  nodes_loop-Outcome s i (n ∷ ns) =
      turn-Outcome s i _ (λ t a. nodes_loop db (set_argument t i a) (i + 1) ns)
        (dispatch_node-Kept s _ n)
        (λ t a.
          Outcome-trans t (set_argument t i a) _ (flags-Keeps t _ refl refl refl refl)
            (nodes_loop-Outcome (set_argument t i a) (i + 1) ns))
