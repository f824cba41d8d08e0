-- ===== src/Aarch64/Frame/Nodes.antt =====
-- The frame of the loops over the arguments, the templates and the aliases.
use amed.Base.{
  ℕ, zero, suc, ◌+◌, ◌*◌, ◌^◌, refl, Bool, true, false, ◌&&◌, none, some, List, [], ◌∷◌,
  if◌then◌else◌, ◌==◌, if-cases,
}
use amed.Base.Text.{◌>>=◌}
use amed.Aarch64.Names.{condition_cond}
use amed.Aarch64.Database.{Node, Template, Encoding, Database}
use amed.Aarch64.State.{Argument, Internal, Result}
use amed.Aarch64.Nodes.{
  dispatch_node, decode_node, set_argument, nodes_loop, decode_nodes, decode_condition,
  finish_template, has_bitdiffs, start_template, end_template, decode_template, try_template,
  templates_loop, has_opcode, decode_encoding, aliases_loop, decode_alias,
}
use amed.Aarch64.Frame.{Frame, Frame-refl, Frame-flags, Frame-trans, Kept, failed-Kept}
use amed.Aarch64.Frame.Outcome.{
  Returns, returns, Returns-trans, Returns-bind, Ends, ends, Ends-turn, Encoded, encoded,
  Ends-Encoded, Encoded-Returns, and_left,
}
use amed.Aarch64.Frame.Registers.{
  decode_arg_reg-Kept, decode_arg_regsh-Kept, decode_arg_vreg-Kept, decode_arg_ereg-Kept,
  decode_arg_preg-Kept,
}
use amed.Aarch64.Frame.Immediates.{
  IsExtensible, decode_arg_imm-Kept, decode_arg_immsh-Kept, decode_arg_fpimm-Kept,
  decode_arg_label-Kept,
}
use amed.Aarch64.Frame.Memory.{
  IsOffset, IsOffsetOption, decode_arg_mem-Kept, decode_arg_vlist-Kept, decode_arg_elist-Kept,
  decode_arg_enum-Kept, decode_arg_patternsh-Kept, decode_arg_invcond-Kept, decode_arg_sysreg-Kept,
}

-- The immediates of a node that are extended by their sign have 1 to 64 bits.
unfoldable pub IsReadable : Database → Node → Type 0
IsReadable db (Node.imm n) = IsExtensible db n
IsReadable db (Node.immsh n shifter) = IsExtensible db n
IsReadable db (Node.fpimm n) = IsExtensible db n
IsReadable db (Node.label n) = IsExtensible db n
IsReadable db (Node.vlist n) = IsOffset db (n.base)
IsReadable db (Node.elist n) = IsOffset db (n.base)
IsReadable db (Node.mem n) = IsOffset db (n.base) × IsOffsetOption db (n.regoff)
IsReadable db _ = Unit {0}

dispatch_node-Kept :
    (db : Database) (s : Internal) (a : Argument) (n : Node)
    → IsReadable db n
    → Kept s (dispatch_node db s a n)
unfolding dispatch_node IsReadable
dispatch_node-Kept db s a (Node.enum n) h = decode_arg_enum-Kept db s a n
dispatch_node-Kept db s a (Node.invcond n) h = decode_arg_invcond-Kept db s a n
dispatch_node-Kept db s a (Node.sysreg n) h = decode_arg_sysreg-Kept db s a n
dispatch_node-Kept db s a (Node.reg n) h = decode_arg_reg-Kept db s a n
dispatch_node-Kept db s a (Node.regsh n shifter) h = decode_arg_regsh-Kept db s a n shifter
dispatch_node-Kept db s a (Node.vreg n) h = decode_arg_vreg-Kept db s a n
dispatch_node-Kept db s a (Node.ereg n) h = decode_arg_ereg-Kept db s a n
dispatch_node-Kept db s a (Node.preg n) h = decode_arg_preg-Kept db s a n
dispatch_node-Kept db s a (Node.vlist n) h = decode_arg_vlist-Kept db s a n h
dispatch_node-Kept db s a (Node.elist n) h = decode_arg_elist-Kept db s a n h
dispatch_node-Kept db s a (Node.patternsh n shifter) h = decode_arg_patternsh-Kept db s a n shifter
dispatch_node-Kept db s a (Node.fpimm n) h = decode_arg_fpimm-Kept db s a n h
dispatch_node-Kept db s a (Node.imm n) h = decode_arg_imm-Kept db s a n h
dispatch_node-Kept db s a (Node.immsh n shifter) h = decode_arg_immsh-Kept db s a n h shifter
dispatch_node-Kept db s a (Node.label n) h = decode_arg_label-Kept db s a n h
dispatch_node-Kept db s a (Node.mem n) h = decode_arg_mem-Kept db s a n (h.0) (h.1)
dispatch_node-Kept db s a Node.other h = failed-Kept s a

abbrev pub AllReadable : Database → List Node → Type 0
AllReadable db [] = Unit {0}
AllReadable db (n ∷ ns) = IsReadable db n × AllReadable db ns

set_argument-Frame :
    (s t : Internal) (i : ℕ) (a : Argument) → Frame s t → Frame s (set_argument t i a)
set_argument-Frame s t i a f = Frame-trans s t _ f (Frame-flags t _ refl refl refl)

module _ (db : Database) where
  -- The rest of the loop, after the result of a node.
  after_node :
      (ns : List Node) (i : ℕ) (s : Internal) (r : Result)
      → ((t : Internal) → Returns t (nodes_loop db t (i + 1) ns))
      → Kept s r
      → Returns s (elim r [
        | Result.decoded t a ↦ nodes_loop db (set_argument t i a) (i + 1) ns
        | Result.failed t a ↦ some (set_argument t i a, false)
        | Result.undefined ↦ none
      ])
  unfolding Kept
  after_node ns i s (Result.decoded t a) rest h =
      Returns-trans s _ _ (set_argument-Frame s t i a h) (rest _)
  after_node ns i s (Result.failed t a) rest h = returns _ false (set_argument-Frame s t i a h)
  after_node ns i s Result.undefined rest h = absurd h

  nodes_loop-Returns :
      (ns : List Node) (s : Internal) (i : ℕ) → AllReadable db ns → Returns s (nodes_loop db s i ns)
  unfolding nodes_loop decode_node
  nodes_loop-Returns [] s i h = returns _ true (Frame-flags s _ refl refl refl)
  nodes_loop-Returns (n ∷ ns) s i h =
      after_node ns i s (decode_node db s (s.insn.arguments i) n)
        (λ t. nodes_loop-Returns ns t (i + 1) (h.1)) (dispatch_node-Kept db s _ n (h.0))

  decode_condition-Frame : (s : Internal) → Frame s (decode_condition s)
  unfolding decode_condition
  decode_condition-Frame s =
      if-cases (Frame s) (s.ptemplate.cond == condition_cond) (λ _. Frame-flags s _ refl refl refl)
        (λ _. Frame-flags s _ refl refl refl)

  finish_template-Frame : (s : Internal) → Frame s (finish_template db s)
  unfolding finish_template
  finish_template-Frame s = Frame-flags s _ refl refl refl

module _ (db : Database) (readable : (i : ℕ) → AllReadable db (db.arguments i)) where
  decode_nodes-Returns : (s : Internal) → Returns s (decode_nodes db s)
  unfolding decode_nodes
  decode_nodes-Returns s = nodes_loop-Returns db _ s 0 (readable (s.ptemplate.arguments))

  start_template-Frame : (s : Internal) (t : Template) → Frame s (start_template db s t)
  unfolding start_template
  start_template-Frame s t =
      let s1 : Internal = record s { ptemplate = t } in
      Frame-trans s (decode_condition s1) _
        (Frame-trans s s1 (decode_condition s1) (Frame-flags s s1 refl refl refl)
          (decode_condition-Frame db s1))
        (Frame-flags (decode_condition s1) _ refl refl refl)

  end_template-Returns : (s : Internal) (ok : Bool) → Returns s (end_template db (s, ok))
  end_template-Returns s true = returns _ true (finish_template-Frame db s)
  end_template-Returns s false = returns s false (Frame-refl s)

  decode_template-Returns : (s : Internal) (t : Template) → Returns s (decode_template db s t)
  unfolding decode_template
  decode_template-Returns s t =
      if-cases (Returns s) (has_bitdiffs db (s.opcode) t)
        (λ _.
          Returns-bind s (decode_nodes db (start_template db s t)) (end_template db)
            (Returns-trans s _ _ (start_template-Frame s t)
              (decode_nodes-Returns (start_template db s t)))
            (λ u ok f. Returns-trans s u _ f (end_template-Returns u ok)))
        (λ _. returns _ false (Frame-flags s _ refl refl refl))

  try_template-Returns : (s : Internal) (t : Template) → Returns s (try_template db s t)
  unfolding try_template
  try_template-Returns s t =
      if-cases (Returns s) (t.asmonly) (λ _. returns s false (Frame-refl s))
        (λ _. decode_template-Returns s t)

  templates_loop-Ends : (n i : ℕ) (s : Internal) → Ends s (templates_loop db s i n)
  unfolding templates_loop
  templates_loop-Ends zero i s = ends s (Frame-refl s)
  templates_loop-Ends (suc n) i s =
      Ends-turn s (try_template db s (db.templates i)) (λ t. templates_loop db t (i + 1) n)
        (try_template-Returns s (db.templates i)) (λ t. templates_loop-Ends n (i + 1) t)

  encoded_lem :
      (s : Internal) (e : Encoding) (i : ℕ) (b : Bool)
      → let s1 : Internal = record s {
        encoding = e;
        iencoding = i;
        datasize = e.datasize * 2 ^ 5;
      } in
        Encoded s b (
          if b
          then (do t ← templates_loop db s1 (e.first_template) (e.template_count); some (t, true))
          else some (record s1 { insn = record (s1.insn) { is_undefined = true } }, false))
  encoded_lem s e i true =
      let s1 : Internal = record s { encoding = e; iencoding = i; datasize = e.datasize * 2 ^ 5 } in
      Ends-Encoded s s1 _ (Frame-flags s s1 refl refl refl)
        (templates_loop-Ends (e.template_count) (e.first_template) s1)
  encoded_lem s e i false = encoded _ refl refl refl

  pub decode_encoding-Encoded :
      (s : Internal) (i : ℕ)
      → Encoded s (has_opcode (s.opcode) (db.encodings i)) (decode_encoding db s i)
  unfolding decode_encoding
  decode_encoding-Encoded s i =
      encoded_lem s (db.encodings i) i (has_opcode (s.opcode) (db.encodings i))

  aliases_loop-Returns : (is : List ℕ) (s : Internal) → Returns s (aliases_loop db s is)
  unfolding aliases_loop
  aliases_loop-Returns [] s = returns s false (Frame-refl s)
  aliases_loop-Returns (i ∷ is) s =
      if-cases (Returns s)
        (has_opcode (s.opcode) (db.encodings i)
          && db.alias_condition (s.opcode) ((db.encodings i).aliases))
        (λ fits. Encoded-Returns s _ _ (and_left _ _ fits) (decode_encoding-Encoded s i))
        (λ _. aliases_loop-Returns is s)

  pub decode_alias-Returns : (s : Internal) (e : Encoding) → Returns s (decode_alias db s e)
  unfolding decode_alias
  decode_alias-Returns s e = aliases_loop-Returns (db.aliases (e.aliases)) s
