-- ===== src/Aarch32/Printer/Operands.antt =====
-- source/aarch32/printer.c: one argument.
use amed.Base.{
  ℕ, Bool, true, false, not, Option, some, List, [], ◌∷◌, ◌++◌, ◌==◌, if◌then◌else◌, u8, flag,
}
use amed.Base.Int.{signed}
use amed.Base.Text.{Text, codes, sprintf_s, decimal, ◌>>=◌}
use amed.Utils.Datatype.{Datatype}
use amed.Aarch64.Printer.Numbers.{print_number}
use amed.Aarch32.Names.{ItOp, register_none}
use amed.Aarch32.State.{ArgumentType, Argument}

-- The generated tables of names, aarch32/strings.c and strings.c. `double_to_string` is what `%f`
-- prints of the `f64` of an argument, or of its memory's offset.
pub record Strings : Type 0 where
  pub register_to_string : ℕ → Text
  pub mnemonic_to_string : ℕ → Text
  pub it_op_to_string : ItOp → Text
  pub shift_to_string : ℕ → Text
  pub datatype_to_string : Datatype → Text
  pub arm_condition_to_string : ℕ → Text
  pub sync_op_to_string : ℕ → Text
  pub arm_cspace_to_string : ℕ → Text
  pub arm_pspace_to_string : ℕ → Text
  pub arm_barrier_to_string : ℕ → Text
  pub endian_to_string : ℕ → Text
  pub double_to_string : Argument → Text

-- The index is passed as 8 bits.
unfoldable pub print_index : ℕ → Option Text
print_index index = do number ← sprintf_s 4 (decimal (u8 index)); some (b'[' ∷ number ++ b']' ∷ [])

abbrev amount_text : Strings → Argument → Option Text
amount_text strings a =
    if a.shifter.has_amount
    then sprintf_s 10 (codes " #" ++ decimal a.shifter.amount)
    else if a.shifter.has_register
    then sprintf_s 9 (codes " " ++ strings.register_to_string a.shifter.amount)
    else some []

unfoldable pub print_shifter : Strings → Argument → Option Text
print_shifter strings a = do
  name ← sprintf_s 5 (strings.shift_to_string a.shifter.kind)
  amount ← amount_text strings a
  some (codes ", " ++ name ++ amount)

-- Nothing, where the shifter is not to be printed.
abbrev shifter_text : Strings → Argument → Option Text
shifter_text strings a = if a.print_shifter then print_shifter strings a else some []

-- Nothing calls it.
unfoldable pub print_datatype : Strings → Argument → Option Text
print_datatype strings a = sprintf_s 8 (codes "." ++ strings.datatype_to_string a.datatype)

abbrev pub register_text : Strings → ℕ → Option Text
register_text strings reg = sprintf_s 9 (strings.register_to_string reg)

-- What follows the name of a register.
abbrev reg_suffix : Strings → Argument → Option Text
reg_suffix strings a =
    if a.has_index
    then print_index a.reg_index
    else if a.print_shifter
    then print_shifter strings a
    else if a.write_back
    then some (codes "!")
    else some []

unfoldable pub print_arg_reg : Strings → Argument → Option Text
unfolding print_index print_shifter
print_arg_reg strings a = do
  name ← register_text strings a.reg_value
  suffix ← reg_suffix strings a
  some (name ++ suffix)

abbrev is_float : Datatype → Bool
is_float Datatype.f16 = true
is_float Datatype.f32 = true
is_float Datatype.f64 = true
is_float _ = false

-- `imm` is a pattern of 64 bits. Past the floating-point types, the source is that of A64.
unfoldable pub print_imm : Strings → Argument → ℕ → Datatype → Option Text
unfolding print_number
print_imm strings a imm datatype =
    if is_float datatype
    then sprintf_s 19 (strings.double_to_string a)
    else print_number (signed 64 imm) datatype

unfoldable pub print_arg_imm : Strings → Argument → Option Text
unfolding print_imm print_shifter
print_arg_imm strings a = do
  number ← print_imm strings a a.imm a.datatype
  shifter ← shifter_text strings a
  some (b'#' ∷ number ++ shifter)

unfoldable pub print_mem_reg : Strings → ℕ → Option Text
print_mem_reg strings reg = register_text strings reg

-- The sign of an offset that is subtracted.
abbrev minus : Argument → Text
minus a = if a.is_adding then [] else codes "-"

unfoldable pub print_mem_offset : Strings → Argument → Option Text
unfolding print_mem_reg print_imm print_shifter
print_mem_offset strings a =
    if not (a.mem.regoff == register_none)
    then (do
      reg ← print_mem_reg strings a.mem.regoff
      shifter ← shifter_text strings a
      some (codes ", " ++ minus a ++ reg ++ shifter))
    else if not (a.mem.immoff_value == 0)
    then (do
      number ← print_imm strings a a.mem.immoff_value a.mem.immoff_datatype
      shifter ← shifter_text strings a
      some (codes ", #" ++ minus a ++ number ++ shifter))
    else some []

unfoldable pub print_arg_mem : Strings → Argument → Option Text
unfolding print_mem_reg print_mem_offset
print_arg_mem strings a = do
  base ← print_mem_reg strings a.mem.base
  offset ← print_mem_offset strings a
  let pre = codes "]" ++ (if a.is_pre_indexed then codes "!" else [])
  some (b'[' ∷ base ++ (if a.is_post_indexed then b']' ∷ offset else offset ++ pre))

abbrev comma_after : List ℕ → Text
comma_after [] = []
comma_after (r ∷ rs) = codes ", "

-- The loop over the registers of a list; a comma follows each but the last.
unfoldable pub list_loop : Strings → List ℕ → Option Text
list_loop strings [] = some []
list_loop strings (r ∷ rs) =
    let rest = list_loop strings rs in
    do name ← register_text strings r; texts ← rest; some (name ++ comma_after rs ++ texts)

unfoldable pub print_arg_list : Strings → Argument → Option Text
unfolding list_loop print_index
print_arg_list strings a = do
  texts ← list_loop strings a.list_registers
  index ← if a.has_index then print_index a.list_index else some []
  some (codes "{" ++ texts ++ codes "}" ++ index)

unfoldable pub print_arg_enum : Strings → (ℕ → Text) → ℕ → Argument → Option Text
unfolding print_arg_imm
print_arg_enum strings func max_size a =
    if a.is_representable then sprintf_s max_size (func a.token) else print_arg_imm strings a

-- A letter, if its bit of the interrupt flags is set.
abbrev aif_letter : Argument → ℕ → ℕ → Text
aif_letter a bit letter = if flag bit a.aif then letter ∷ [] else []

-- `not_empty` is the whole byte, taken as true where it is not 0.
unfoldable pub print_arg_aif : Argument → Option Text
print_arg_aif a =
    if a.aif == 0
    then sprintf_s 4 (codes "#0")
    else some (aif_letter a 2 b'A' ++ aif_letter a 1 b'I' ++ aif_letter a 0 b'F')

-- The `switch` on the type of an argument.
unfoldable pub print_argument : Strings → Argument → Option Text
unfolding print_arg_reg print_arg_imm print_arg_mem print_arg_list print_arg_enum print_arg_aif
print_argument strings a = elim (a.kind) [
  | ArgumentType.none ↦ some []
  | ArgumentType.register ↦ print_arg_reg strings a
  | ArgumentType.immediate ↦ print_arg_imm strings a
  | ArgumentType.label ↦ print_arg_imm strings a
  | ArgumentType.memory ↦ print_arg_mem strings a
  | ArgumentType.list ↦ print_arg_list strings a
  | ArgumentType.aif ↦ print_arg_aif a
  | ArgumentType.cspace ↦ print_arg_enum strings (strings.arm_cspace_to_string) 5 a
  | ArgumentType.pspace ↦ print_arg_enum strings (strings.arm_pspace_to_string) 5 a
  | ArgumentType.sync_op ↦ print_arg_enum strings (strings.sync_op_to_string) 6 a
  | ArgumentType.barrier ↦ print_arg_enum strings (strings.arm_barrier_to_string) 6 a
  | ArgumentType.condition ↦ print_arg_enum strings (strings.arm_condition_to_string) 5 a
  | ArgumentType.endian ↦ print_arg_enum strings (strings.endian_to_string) 5 a
]
