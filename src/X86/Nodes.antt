-- ===== src/X86/Nodes.antt =====
-- source/x86/decoder.c, `decode_node`, `decode_nodes` and `decode_template`.
pub mod Others
pub mod Operands
pub mod Immediates
pub mod Made
pub mod Typed
pub mod Described
use amed.Base.{
  ℕ, ◌+◌, ◌-◌, ◌^◌, Bool, true, false, not, ◌&&◌, ◌||◌, List, [], ◌∷◌, bit_and, ◌==◌, if◌then◌else◌,
  get_or, u16,
}
use amed.X86.Names.{prefix_f2, prefix_f3}
use amed.X86.Database.{Node, Template, Bitdiff, Database}
use amed.X86.Diagram.{hashcode}
use amed.X86.State.{ArgumentType, PrefixFunctionality, Internal}
use amed.X86.Arguments.Slots.{argument_at, set_argument, clear_argument}
use amed.X86.Arguments.Registers.{decode_arg_reg, decode_arg_preg, decode_arg_vreg}
use amed.X86.Arguments.Memory.{
  decode_arg_mem, decode_arg_address, decode_node_sbcst, decode_node_bcst,
}
use amed.X86.Arguments.Immediates.{
  decode_arg_imm, decode_arg_imm_shift, decode_arg_imm_rotate, decode_arg_cc, decode_arg_rel,
  decode_node_sae, decode_node_evh, decode_node_rc,
}
use amed.X86.Arguments.Swizzle.{decode_node_swz_reg, decode_node_swz_mem}
use amed.X86.Arguments.Offsets.{decode_arg_moffs, decode_arg_ptr}

-- The `switch` on the type of a node.
unfoldable pub dispatch_node : Database → Internal → ℕ → Node → Internal × Bool
dispatch_node db s i (Node.reg n) = decode_arg_reg db s i n
dispatch_node db s i (Node.vreg n) = decode_arg_vreg db s i n
dispatch_node db s i (Node.preg n) = decode_arg_preg db s i n
dispatch_node db s i (Node.mem n) = decode_arg_mem s i n
dispatch_node db s i (Node.agen n) = decode_arg_address s i n
dispatch_node db s i (Node.mib n) = decode_arg_address s i n
dispatch_node db s i (Node.imm n) = decode_arg_imm s i n
dispatch_node db s i (Node.rel n) = decode_arg_rel s i n
dispatch_node db s i (Node.moffs n) = decode_arg_moffs s i n
dispatch_node db s i (Node.ptr n) = decode_arg_ptr s i n
dispatch_node db s i (Node.shift n) = decode_arg_imm_shift s i n
dispatch_node db s i (Node.rotate n) = decode_arg_imm_rotate s i n
dispatch_node db s i (Node.ctl n) = decode_arg_imm s i n
dispatch_node db s i (Node.cc n) = decode_arg_cc s i n
dispatch_node db s i Node.sae = decode_node_sae s i
dispatch_node db s i Node.evh = decode_node_evh s i
dispatch_node db s i (Node.rc encodedin) = decode_node_rc s i encodedin
dispatch_node db s i Node.bcst = decode_node_bcst s
dispatch_node db s i (Node.sbcst from to) = decode_node_sbcst s from to
dispatch_node db s i Node.swz_reg = decode_node_swz_reg s
dispatch_node db s i (Node.swz_mem table) = decode_node_swz_mem s table
dispatch_node db s i Node.other = (s, true)

unfoldable pub decode_node : Database → Internal → ℕ → Node → Internal × Bool
decode_node db s i n = dispatch_node db (set_argument s i (clear_argument (argument_at s i))) i n

abbrev pub is_none : ArgumentType → Bool
is_none ArgumentType.none = true
is_none _ = false

-- The place of the next argument.
abbrev pub next_slot : Internal → ℕ → ℕ
next_slot s i = if is_none (argument_at s i).kind then i else i + 1

-- The `while` over the nodes, from the argument at `i`. In the source `i` is an `int8_t`, the count
-- has 8 bits and the array 8 places: here they are not bounded, so this is the source's loop where
-- the nodes of a template leave at most 8 arguments.
unfoldable pub nodes_loop : Database → Internal → ℕ → List Node → Internal × Bool
nodes_loop db s i [] = (record s { insn = record (s.insn) { argument_count = i } }, true)
nodes_loop db s i (n ∷ ns) =
    let (s1, ok) = decode_node db s i n in
    let rest = nodes_loop db s1 (next_slot s1 i) ns in if ok then rest else (s1, false)

unfoldable pub decode_nodes : Database → Internal → Internal × Bool
decode_nodes db s = nodes_loop db s 0 (db.arguments s.ptemplate.arguments)

-- What the last F2 or F3 prefix means for the template.
unfoldable pub prefix_functionality : Template → ℕ → PrefixFunctionality
prefix_functionality t last =
    if last == prefix_f2
    then if t.bound
      then PrefixFunctionality.bnd
      else if t.xacquire
      then PrefixFunctionality.xacquire
      else if t.repnz
      then PrefixFunctionality.repnz
      else PrefixFunctionality.none
    else if last == prefix_f3
    then if t.xrelease
      then PrefixFunctionality.xrelease
      else if t.repz
      then PrefixFunctionality.repz
      else if t.rep
      then PrefixFunctionality.rep
      else PrefixFunctionality.none
    else PrefixFunctionality.none

abbrev acquires : Template → ℕ → Bool
acquires t last = last == prefix_f2 && not t.bound && t.xacquire

abbrev releases : Template → ℕ → Bool
releases t last = last == prefix_f3 && t.xrelease

-- What `decode_template` sets before the nodes are decoded.
unfoldable pub start_template : Database → Internal → Template → Internal
start_template db s t = record s {
  ptemplate = t;
  insn = record (s.insn) {
    iform = t.iform;
    mnemonic = db.iform2mnem t.iform;
    is_atomic = t.lock && s.diagram.f0;
    is_acquiring = acquires t s.last_f_prefix || s.insn.is_acquiring;
    is_releasing = releases t s.last_f_prefix || s.insn.is_releasing;
    prefix_functionality = prefix_functionality t s.last_f_prefix;
  };
}

-- `AMED_X86_FEATURE_MASK`, the bits 25 to 30.
abbrev feature_mask : ℕ
feature_mask = 0x7e000000

-- Whether the hash code misses the bits that the template fixes.
unfoldable pub misses_bits : Bitdiff → ℕ → Bool
misses_bits diff hash =
    not (bit_and (bit_and hash diff.mask) (2 ^ 32 - 1 - feature_mask) == diff.opcode)

-- The category of a branch is 7 of `amed_category`, and no extension is 0.
unfoldable pub finish_template : Database → Internal → Internal
finish_template db s =
    let e = s.encoding in
    record s {
      insn = record (s.insn) {
        page = e.page;
        encoding = u16 s.iencoding;
        arch_variant = e.isa;
        iflags = db.iflags e.iflags;
        categories = e.categories;
        exceptions = e.exceptions;
        extensions = e.extension ∷ 0 ∷ [];
        may_branch = s.insn.may_branch || get_or e.categories 1 0 == 7;
        is_constructive =
            s.insn.is_constructive || s.diagram.has_modrm && not s.insn.is_destructive;
        is_unpredictable =
            s.insn.is_unpredictable
            || misses_bits (db.bitdiffs s.ptemplate.bitdiffs) (hashcode s.diagram);
      };
    }

unfoldable pub decode_template : Database → Internal → Template → Internal × Bool
decode_template db s t =
    let (s1, ok) = decode_nodes db (start_template db s t) in
    if ok then (finish_template db s1, true) else (s1, false)
