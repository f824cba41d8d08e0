-- ===== src/Aarch32/Printer/Whole.antt =====
-- What source/aarch32/printer.c writes of an instruction, and of a list that the decoder made.
use amed.Base.{
  ℕ, zero, suc, ◌≡◌, refl, sym, ◌∙◌, ap, false, Option, none, some, List, [], ◌∷◌, ◌++◌,
}
use mathlib.Core.List.{append-nil, append_assoc}
use amed.Base.Text.{Text, codes, sprintf_s, ◌>>=◌}
use amed.X86.Printer.{Formatter, separator}
use amed.X86.Printer.Separators.{
  each_after, join, comma, written-listed, written-listed_first, suc_not_zero,
}
use amed.Aarch32.Database.{Any, Node, Database}
use amed.Aarch32.State.{Argument, Insn, Internal, Result}
use amed.Aarch32.Fields.{read_encodedin_value}
use amed.Aarch32.Arguments.Lists.Registers.{set_bits, decode_arg_glist-set_bits}
use amed.Aarch32.Nodes.{clear_argument, dispatch_node, decode_node}
use amed.Aarch32.Entry.{MachineMode}
use amed.Aarch32.Printer.{
  Strings, register_text, condition_text, qualifier_text, list_loop, print_arg_list, print_argument,
  arguments_loop, insn_text,
}
use amed.Aarch32.Printer.Distinct.{
  marked, distinct, first_of, datatypes_text, print_datatypes-distinct,
}

-- The texts of the `n` arguments from `i` on.
unfoldable pub operands : Strings → Insn → ℕ → ℕ → Option (List Text)
operands strings insn i zero = some []
operands strings insn i (suc n) =
    let rest = operands strings insn (suc i) n in
    do text ← print_argument strings (insn.arguments i); texts ← rest; some (text ∷ texts)

module _ (strings : Strings) (formatter : Formatter) (insn : Insn) where
  arguments_loop-each_after :
      (n i : ℕ)
      → arguments_loop strings formatter insn (suc i) n
        ≡ (do texts ← operands strings insn (suc i) n; some (each_after (comma formatter) texts))
  unfolding arguments_loop operands
  arguments_loop-each_after zero i = refl
  arguments_loop-each_after (suc n) i =
      rw (suc_not_zero i, arguments_loop-each_after n (suc i))
        (written-listed (comma formatter) false (print_argument strings (insn.arguments (suc i)))
          (operands strings insn (suc (suc i)) n))

  arguments_loop-join :
      (n : ℕ)
      → arguments_loop strings formatter insn 0 n
        ≡ (do texts ← operands strings insn 0 n; some (join (comma formatter) texts))
  unfolding arguments_loop operands
  arguments_loop-join zero = refl
  arguments_loop-join (suc n) = rw (arguments_loop-each_after n 0) (
      written-listed_first (comma formatter) false (print_argument strings (insn.arguments 0))
        (operands strings insn 1 n))

  -- For every mode, formatter and instruction, the text before any lowering is the mnemonic, the
  -- letters of an IT or the condition, the qualifier, the first four data types that the arguments
  -- have to be printed, each once and after a point, white space, and the texts of the arguments,
  -- joined by separators; a text that is refused makes the whole refused.
  pub insn_text-join :
      (mode : MachineMode)
      → insn_text strings formatter mode insn ≡ (do
        name ← sprintf_s 10 (strings.mnemonic_to_string insn.mnemonic)
        condition ← condition_text strings insn
        qualifier ← qualifier_text mode insn
        datatypes ←
            datatypes_text strings (first_of 4 (distinct [] (marked insn 0 insn.argument_count)))
        operands ← (do
          texts ← operands strings insn 0 insn.argument_count
          some (join (comma formatter) texts))
        some (
            name
            ++ condition
            ++ qualifier
            ++ datatypes
            ++ separator (formatter.use_tab_after_mnem) ∷ operands))
  unfolding insn_text
  insn_text-join mode =
      rw (arguments_loop-join (insn.argument_count), print_datatypes-distinct insn strings) refl

-- The names of registers.
unfoldable pub names : Strings → List ℕ → Option (List Text)
names strings [] = some []
names strings (r ∷ rs) =
    let rest = names strings rs in
    do name ← register_text strings r; texts ← rest; some (name ∷ texts)

joined_two :
    (sep : Text) (first second : Option Text) (rest : Option (List Text))
    → (do
      name ← first
      texts ← (do ts ← (do t ← second; ts ← rest; some (t ∷ ts)); some (join sep ts))
      some (name ++ sep ++ texts))
      ≡ (do
        ts ← (do name ← first; ts ← (do t ← second; ts ← rest; some (t ∷ ts)); some (name ∷ ts))
        some (join sep ts))
joined_two sep none second rest = refl
joined_two sep (some name) none rest = refl
joined_two sep (some name) (some t) none = refl
joined_two sep (some name) (some t) (some ts) = ap some (
    append_assoc name sep (t ++ each_after sep ts)
    ∙ ap (λ (u : Text). name ++ u) (sym (append_assoc sep t (each_after sep ts))))

joined_one :
    (sep : Text) (first : Option Text)
    → (do name ← first; some (name ++ [] ++ []))
      ≡ (do ts ← (do name ← first; some (name ∷ [])); some (join sep ts))
joined_one sep none = refl
joined_one sep (some name) = ap some (append-nil (name ++ []))

list_loop-join :
    (strings : Strings) (registers : List ℕ)
    → list_loop strings registers
      ≡ (do texts ← names strings registers; some (join (codes ", ") texts))
unfolding list_loop names
list_loop-join strings [] = refl
list_loop-join strings (r ∷ []) = joined_one (codes ", ") (register_text strings r)
list_loop-join strings (r ∷ r' ∷ rs) = rw (list_loop-join strings (r' ∷ rs)) (
    joined_two (codes ", ") (register_text strings r) (register_text strings r') (names strings rs))

in_braces :
    (sep : Text) (texts : Option (List Text))
    → (do ts ← (do names ← texts; some (join sep names)); some (codes "{" ++ ts ++ codes "}" ++ []))
      ≡ (do names ← texts; some (codes "{" ++ join sep names ++ codes "}"))
in_braces sep none = refl
in_braces sep (some ts) = ap some (append-nil (codes "{" ++ join sep ts ++ codes "}"))

-- The text of an argument that is decoded.
abbrev pub printed : Strings → Result → Option Text
printed strings (Result.decoded s a) = print_argument strings a
printed strings _ = none

-- For every node of a list of general registers, opcode, state and argument, the list is decoded, and
-- printed in braces, as the names of R0 and on whose bits are set among the 32 of the field, in their
-- order, joined by commas; a name that is too long makes it refused.
pub decode_node-print_arg_list :
    (strings : Strings) (db : Database) (s : Internal) (a : Argument) (n : Any)
    → let registers = set_bits 32 (read_encodedin_value db s.opcode n.encodedin).0 0 in
      printed strings (decode_node db s a (Node.glist n)) ≡ (do
        texts ← names strings registers
        some (codes "{" ++ join (codes ", ") texts ++ codes "}"))
unfolding decode_node dispatch_node print_argument print_arg_list
decode_node-print_arg_list strings db s a n =
    let registers = set_bits 32 ((read_encodedin_value db (s.opcode) (n.encodedin)).0) 0 in
    rw (decode_arg_glist-set_bits db s (clear_argument a) n, list_loop-join strings registers)
      (in_braces (codes ", ") (names strings registers))
