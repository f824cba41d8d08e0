-- ===== src/Aarch64/Nodes.antt =====
-- source/aarch64/decoder.c, from `decode_node` to `amed_aarch64_decode_insn`. `none` is a call of a
-- helper that C leaves undefined.
use amed.Base.{
  ℕ, zero, suc, ◌+◌, ◌*◌, ◌%◌, ◌^◌, Bool, true, false, not, ◌&&◌, ◌||◌, Option, none, some, List,
  [], ◌∷◌, bit_and, ltb, ◌==◌, if◌then◌else◌, u16, get_or,
}
use amed.Base.Text.{◌>>=◌}
use amed.Aarch64.Names.{condition_eq, condition_al, condition_cond, category_branch, shift_none}
use amed.Aarch64.Database.{Node, Encoding, Template, Database}
use amed.Aarch64.State.{ArgumentType, Argument, Internal, Result}
use amed.Aarch64.Arguments.Registers.{decode_arg_reg}
use amed.Aarch64.Arguments.Shifters.{
  decode_arg_regsh, decode_arg_vreg, decode_arg_ereg, decode_arg_preg,
}
use amed.Aarch64.Arguments.Immediates.{
  decode_arg_imm, decode_arg_immsh, decode_arg_fpimm, decode_arg_label,
}
use amed.Aarch64.Arguments.Memory.{decode_arg_mem}
use amed.Aarch64.Arguments.Enums.{
  decode_arg_enum, decode_arg_invcond, decode_arg_patternsh, decode_arg_sysreg,
}
use amed.Aarch64.Arguments.Lists.{decode_arg_vlist, decode_arg_elist}

-- The flags and the shifter that decode_node clears.
abbrev pub clear_argument : Argument → Argument
clear_argument a = record a {
  is_vector = false;
  is_representable = true;
  read = false;
  write = false;
  has_shifter = false;
  zeroing = false;
  merging = false;
  has_index = false;
  is_post_indexed = false;
  is_pre_indexed = false;
  print_datatype = false;
  print_shifter = false;
  print_amount_as_vl = false;
  shifter = record (a.shifter) { kind = shift_none };
}

-- The `switch` on the type of a node.
unfoldable pub dispatch_node : Database → Internal → Argument → Node → Result
dispatch_node db s a (Node.enum n) = decode_arg_enum db s a n
dispatch_node db s a (Node.invcond n) = decode_arg_invcond db s a n
dispatch_node db s a (Node.sysreg n) = decode_arg_sysreg s a n
dispatch_node db s a (Node.reg n) = decode_arg_reg db s a n
dispatch_node db s a (Node.regsh n shifter) = decode_arg_regsh db s a n shifter
dispatch_node db s a (Node.vreg n) = decode_arg_vreg db s a n
dispatch_node db s a (Node.ereg n) = decode_arg_ereg db s a n
dispatch_node db s a (Node.preg n) = decode_arg_preg db s a n
dispatch_node db s a (Node.vlist n) = decode_arg_vlist db s a n
dispatch_node db s a (Node.elist n) = decode_arg_elist db s a n
dispatch_node db s a (Node.patternsh n shifter) = decode_arg_patternsh db s a n shifter
dispatch_node db s a (Node.fpimm n) = decode_arg_fpimm db s a n
dispatch_node db s a (Node.imm n) = decode_arg_imm db s a n
dispatch_node db s a (Node.immsh n shifter) = decode_arg_immsh db s a n shifter
dispatch_node db s a (Node.label n) = decode_arg_label db s a n
dispatch_node db s a (Node.mem n) = decode_arg_mem db s a n
dispatch_node db s a Node.other = Result.failed s a

unfoldable pub decode_node : Database → Internal → Argument → Node → Result
decode_node db s a node = dispatch_node db s (clear_argument a) node

abbrev pub set_argument : Internal → ℕ → Argument → Internal
set_argument s i a = record s {
  insn = record (s.insn) { arguments = λ j. if j == i then a else s.insn.arguments j };
}

abbrev pub end_arguments : Internal → ℕ → Internal
end_arguments s i =
    let last = record (s.insn.arguments i) { kind = ArgumentType.none } in
    let s1 = set_argument s i last in record s1 { insn = record (s1.insn) { argument_count = i } }

-- The `while` over the nodes, from the argument at `i`. The array has room for 8, which neither
-- this nor the last store checks: this is the source's loop for templates of at most 7 nodes.
unfoldable pub nodes_loop : Database → Internal → ℕ → List Node → Option (Internal × Bool)
nodes_loop db s i [] = some (end_arguments s i, true)
nodes_loop db s i (n ∷ ns) = elim (decode_node db s (s.insn.arguments i) n) [
  | Result.decoded s1 a ↦ nodes_loop db (set_argument s1 i a) (i + 1) ns
  | Result.failed s1 a ↦ some (set_argument s1 i a, false)
  | Result.undefined ↦ none
]

unfoldable pub decode_nodes : Database → Internal → Option (Internal × Bool)
decode_nodes db s = nodes_loop db s 0 (db.arguments (s.ptemplate.arguments))

unfoldable pub decode_condition : Internal → Internal
decode_condition s =
    let cond = s.opcode % 16 + condition_eq in
    if s.ptemplate.cond == condition_cond
    then record s {
      insn = record (s.insn) { condition = cond; is_running_conditionally = ltb cond condition_al };
    }
    else record s { insn = record (s.insn) { condition = condition_al } }

-- What decode_template stores after the arguments.
unfoldable pub finish_template : Database → Internal → Internal
finish_template db s = record s {
  insn = record (s.insn) {
    page = s.encoding.page;
    iclass = s.encoding.iclass;
    cclass = s.encoding.cclass;
    encoding = u16 s.iencoding;
    pstate = db.iflags (s.encoding.iflags);
    categories = s.encoding.categories;
    exceptions = s.encoding.exceptions;
    extensions = s.ptemplate.extensions;
    arch_variant = s.ptemplate.arch_variant;
    may_branch = s.insn.may_branch || get_or (s.encoding.categories) 1 0 == category_branch;
    is_constructive = s.insn.is_constructive || s.has_reg && not (s.insn.is_destructive);
  };
}

-- Whether the opcode has the bits that tell templates of one encoding apart.
abbrev pub has_bitdiffs : Database → ℕ → Template → Bool
has_bitdiffs db opcode t =
    let d = db.bitdiffs t.bitdiffs in t.bitdiffs == 0 || bit_and opcode d.mask == d.opcode

-- What decode_template stores before the arguments.
unfoldable pub start_template : Database → Internal → Template → Internal
start_template db s t =
    let s1 = decode_condition (record s { ptemplate = t }) in
    record s1 { insn = record (s1.insn) { iform = t.iform; mnemonic = db.iform2mnem t.iform } }

abbrev pub end_template : Database → Internal × Bool → Option (Internal × Bool)
end_template db (s, ok) = some (if ok then finish_template db s else s, ok)

unfoldable pub decode_template : Database → Internal → Template → Option (Internal × Bool)
decode_template db s t =
    if has_bitdiffs db (s.opcode) t
    then decode_nodes db (start_template db s t) >>= end_template db
    else some (record s { ptemplate = t }, false)

-- One turn of the `for` over the templates.
unfoldable pub try_template : Database → Internal → Template → Option (Internal × Bool)
try_template db s t = if t.asmonly then some (s, false) else decode_template db s t

-- The `for` over the templates from `i` on, `n` of them left; it ends the same with or without one.
unfoldable pub templates_loop : Database → Internal → ℕ → ℕ → Option Internal
templates_loop db s i zero = some s
templates_loop db s i (suc n) = do
  (s1, ok) ← try_template db s (db.templates i)
  let rest = templates_loop db s1 (i + 1) n
  if ok then some s1 else rest

-- Whether the fixed bits of an encoding are those of the opcode.
abbrev pub has_opcode : ℕ → Encoding → Bool
has_opcode opcode e = bit_and opcode e.mask == e.opcode

unfoldable pub decode_encoding : Database → Internal → ℕ → Option (Internal × Bool)
decode_encoding db s i =
    let e = db.encodings i in
    let s1 = record s { encoding = e; iencoding = i; datasize = e.datasize * 2 ^ 5 } in
    if has_opcode (s.opcode) e
    then (do s2 ← templates_loop db s1 (e.first_template) (e.template_count); some (s2, true))
    else some (record s1 { insn = record (s1.insn) { is_undefined = true } }, false)

-- The `while` over the aliases of an encoding.
unfoldable pub aliases_loop : Database → Internal → List ℕ → Option (Internal × Bool)
aliases_loop db s [] = some (s, false)
aliases_loop db s (i ∷ is) =
    let alias = db.encodings i in
    let rest = aliases_loop db s is in
    if has_opcode (s.opcode) alias && db.alias_condition (s.opcode) (alias.aliases)
    then decode_encoding db s i
    else rest

unfoldable pub decode_alias : Database → Internal → Encoding → Option (Internal × Bool)
decode_alias db s e = aliases_loop db s (db.aliases (e.aliases))
