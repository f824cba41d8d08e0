-- ===== src/X86/Printer/Operands.antt =====
-- source/x86/printer.c: the prefixes and one argument.
use amed.Base.{
  ℕ, zero, suc, ◌*◌, ◌%◌, ◌^◌, Bool, true, false, ◌&&◌, Option, some, [], ◌∷◌, ◌++◌, ltb, ◌==◌,
  if◌then◌else◌, field, get_or, not,
}
use amed.Base.Int.{signed, is_negative, pattern64}
use amed.Base.Text.{Text, codes, sprintf_s, hex, decimal, ◌>>=◌}
use amed.Utils.Datatype.{Datatype}
use amed.X86.Printer.Numbers.{print_imm_value}
use amed.X86.State.{ArgumentType, PrefixFunctionality, Memory, Argument, Insn}

-- The generated tables of names, x86/strings.c and strings.c.
pub record Strings : Type 0 where
  pub register_to_string : ℕ → Text
  pub mnemonic_to_string : ℕ → Text
  pub datatype_to_string : Datatype → Text
  pub comparison_predicate_to_string : ℕ → Text

abbrev pub register_max_text_length : ℕ
register_max_text_length = 7

abbrev pub mnemonic_max_text_length : ℕ
mnemonic_max_text_length = 19

abbrev comparison_predicate_max_text_length : ℕ
comparison_predicate_max_text_length = 9

unfoldable pub print_reg_value : Strings → ℕ → Option Text
print_reg_value strings value =
    sprintf_s register_max_text_length (strings.register_to_string value)

-- The selectors share their bytes with the index. The loop stops at the first above 3, and what it
-- has written before stays.
unfoldable pub swizzle_loop : ℕ → ℕ → Text
swizzle_loop index zero = b'}' ∷ []
swizzle_loop index (suc i) =
    let value = field (8 * i) 8 index in
    let rest = swizzle_loop index i in
    if ltb 3 value then [] else get_or (codes "ABCD") value 0 ∷ rest

unfoldable pub print_reg_swizzle : Argument → Text
print_reg_swizzle a = b'{' ∷ swizzle_loop (a.reg_index) 4

abbrev reg_suffix : Argument → Text
reg_suffix a =
    if a.zeroing
    then codes "{Z}"
    else if a.merging
    then codes "{M}"
    else if a.print_index
    then print_reg_swizzle a
    else []

unfoldable pub print_arg_reg : Strings → Argument → Option Text
print_arg_reg strings a = do
  name ← sprintf_s register_max_text_length (strings.register_to_string (a.reg_value))
  let suffix = reg_suffix a
  some (name ++ suffix)

-- The second part tells whether there is a name for the size.
unfoldable pub print_size : ℕ → Text × Bool
print_size size =
    if size == 8
    then (codes "BYTE", true)
    else if size == 16
    then (codes "WORD", true)
    else if size == 32
    then (codes "DWORD", true)
    else if size == 64
    then (codes "QWORD", true)
    else if size == 128
    then (codes "OWORD", true)
    else if size == 256
    then (codes "YWORD", true)
    else if size == 512
    then (codes "ZWORD", true)
    else ([], false)

unfoldable pub print_broadcasting : Memory → Option Text
print_broadcasting m = sprintf_s 10 (
    codes "{"
    ++ decimal (m.broadcasting_from)
    ++ codes "to"
    ++ decimal (m.broadcasting_to)
    ++ codes "}")

-- The parts of `print_arg_mem`, in the order in which they are written.
abbrev mem_size_text : Argument → Text
mem_size_text a =
    let (name, ok) = print_size (a.size) in
    if a.print_size then if ok then name ++ b' ' ∷ [] else name else []

abbrev mem_segment_text : Strings → Argument → Option Text
mem_segment_text strings a =
    if a.print_segment && not (a.mem.segment == 0)
    then (do name ← print_reg_value strings (a.mem.segment); some (name ++ b':' ∷ []))
    else some []

abbrev mem_base_text : Strings → Memory → Option Text
mem_base_text strings m = if m.base == 0 then some [] else print_reg_value strings (m.base)

abbrev mem_scale_text : Argument → Option Text
mem_scale_text a =
    if a.print_shifter
    then (do amount ← sprintf_s 2 (decimal (a.shifter_amount)); some (b'*' ∷ amount))
    else some []

abbrev mem_regoff_text : Strings → Argument → Option Text
mem_regoff_text strings a = if a.mem.regoff == 0 then some [] else do
  name ← print_reg_value strings (a.mem.regoff)
  let plus = if a.mem.base == 0 then [] else b'+' ∷ []
  scale ← mem_scale_text a
  some (plus ++ name ++ scale)

abbrev is_datatype_none : Datatype → Bool
is_datatype_none Datatype.none = true
is_datatype_none _ = false

abbrev mem_disp_text : Memory → Option Text
mem_disp_text m =
    let print_sign = not (m.base == 0 && m.regoff == 0) in
    if is_datatype_none (m.immoff_datatype) then some [] else do
      number ← print_imm_value (m.immoff_value) (m.immoff_datatype)
      some (if print_sign && not (is_negative (m.immoff_value)) then b'+' ∷ number else number)

abbrev mem_suffix_text : Strings → Argument → Option Text
mem_suffix_text strings a =
    if not (is_datatype_none (a.mem.vdatatype))
    then sprintf_s 10 (codes "{" ++ strings.datatype_to_string (a.datatype) ++ codes "}")
    else if a.print_broadcasting && not (a.mem.broadcasting_from == 0)
    then print_broadcasting (a.mem)
    else some []

unfoldable pub print_arg_mem : Strings → Argument → Option Text
unfolding print_size print_reg_value print_imm_value print_broadcasting
print_arg_mem strings a = do
  segment ← mem_segment_text strings a
  base ← mem_base_text strings (a.mem)
  regoff ← mem_regoff_text strings a
  disp ← mem_disp_text (a.mem)
  suffix ← mem_suffix_text strings a
  some (mem_size_text a ++ segment ++ b'[' ∷ base ++ regoff ++ disp ++ b']' ∷ suffix)

unfoldable pub print_arg_imm : Argument → Option Text
unfolding print_imm_value
print_arg_imm a = print_imm_value (signed 64 (a.imm)) (a.datatype)

unfoldable pub print_arg_ptr : Argument → Option Text
print_arg_ptr a =
    sprintf_s 16 (hex 4 (a.ptr_segment) ++ b':' ∷ hex 4 (pattern64 (a.ptr_offset) % 2 ^ 32))

unfoldable pub print_rounding : Insn → ℕ → Text
print_rounding insn value =
    let name =
      get_or (codes "??" ∷ codes "RN" ∷ codes "RD" ∷ codes "RU" ∷ codes "RZ" ∷ []) value [] in
    let sae = if insn.is_suppressing_all_exceptions then codes "-SAE" else [] in
    if ltb 4 value then [] else b'{' ∷ name ++ sae ++ b'}' ∷ []

unfoldable pub print_sae : ℕ → Text
print_sae value = if value == 0 then [] else codes "{SAE}"

unfoldable pub print_evh : ℕ → Text
print_evh value = if value == 0 then [] else codes "{EH}"

abbrev prefix_name : PrefixFunctionality → Text
prefix_name PrefixFunctionality.none = []
prefix_name PrefixFunctionality.rep = codes "REP "
prefix_name PrefixFunctionality.repz = codes "REPZ "
prefix_name PrefixFunctionality.repnz = codes "REPNZ "
prefix_name PrefixFunctionality.xacquire = codes "XACQUIRE "
prefix_name PrefixFunctionality.xrelease = codes "XRELEASE "
prefix_name PrefixFunctionality.bnd = codes "BND "

unfoldable pub print_prefixes : Insn → Text
print_prefixes insn =
    prefix_name (insn.prefix_functionality) ++ (if insn.is_atomic then codes "LOCK " else [])

unfoldable pub print_arg_enum : (ℕ → Text) → ℕ → Argument → Option Text
unfolding print_arg_imm
print_arg_enum func max_size a =
    if a.is_representable then sprintf_s max_size (func (a.token)) else print_arg_imm a

-- The `switch` on the type of an argument, which has no case for a label.
unfoldable pub print_argument : Strings → Insn → Argument → Option Text
unfolding print_arg_reg print_arg_mem print_arg_imm print_arg_ptr print_rounding print_sae print_evh
    print_arg_enum
print_argument strings insn a = elim (a.kind) [
  | ArgumentType.register ↦ print_arg_reg strings a
  | ArgumentType.memory ↦ print_arg_mem strings a
  | ArgumentType.address ↦ print_arg_mem strings a
  | ArgumentType.immediate ↦ print_arg_imm a
  | ArgumentType.ptr ↦ print_arg_ptr a
  | ArgumentType.rounding ↦ some (print_rounding insn (a.token))
  | ArgumentType.sae ↦ some (print_sae (a.token))
  | ArgumentType.evh ↦ some (print_evh (a.token))
  | ArgumentType.condition ↦
      print_arg_enum (strings.comparison_predicate_to_string) comparison_predicate_max_text_length a
  | _ ↦ some []
]
