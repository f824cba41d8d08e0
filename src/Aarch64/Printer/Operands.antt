-- ===== src/Aarch64/Printer/Operands.antt =====
-- source/aarch64/printer.c: one argument.
use amed.Base.{
  ℕ, zero, suc, Bool, true, false, not, ◌&&◌, Option, none, some, List, [], ◌∷◌, ◌++◌, ltb, leb,
  ◌==◌, if◌then◌else◌, u8,
}
use amed.Base.Int.{signed}
use amed.Base.Text.{Text, codes, sprintf_s, decimal, ◌>>=◌}
use amed.Utils.Datatype.{Datatype, get_datatype_size}
use amed.Aarch64.Names.{register_none, register_z0, register_z31, shift_none}
use amed.Aarch64.State.{ArgumentType, Argument}
use amed.Aarch64.Printer.Numbers.{print_number}

-- The generated tables of names, aarch64/strings.c and strings.c. `double_to_string` is what `%f`
-- prints of the `f64` of an argument.
pub record Strings : Type 0 where
  pub register_to_string : ℕ → Text
  pub mnemonic_to_string : ℕ → Text
  pub shift_to_string : ℕ → Text
  pub arm_condition_to_string : ℕ → Text
  pub pattern_to_string : ℕ → Text
  pub at_op_to_string : ℕ → Text
  pub dc_op_to_string : ℕ → Text
  pub ic_op_to_string : ℕ → Text
  pub tlbi_op_to_string : ℕ → Text
  pub sync_op_to_string : ℕ → Text
  pub bti_op_to_string : ℕ → Text
  pub prf_op_to_string : ℕ → Text
  pub ctx_op_to_string : ℕ → Text
  pub arm_cspace_to_string : ℕ → Text
  pub arm_pspace_to_string : ℕ → Text
  pub arm_barrier_to_string : ℕ → Text
  pub double_to_string : Argument → Text

-- The letter of an element's size.
abbrev lane_letter : ℕ → Option ℕ
lane_letter esize =
    if esize == 8
    then some b'B'
    else if esize == 16
    then some b'H'
    else if esize == 32
    then some b'S'
    else if esize == 64
    then some b'D'
    else if esize == 128
    then some b'Q'
    else none

abbrev lane_number : ℕ → Option Text
lane_number number_of_elements =
    if ltb 1 number_of_elements then sprintf_s 3 (decimal number_of_elements) else some []

unfoldable pub print_lane : ℕ → Datatype → Option Text
unfolding get_datatype_size
print_lane number_of_elements datatype = elim (lane_letter (get_datatype_size datatype)) [
  | none ↦ some []
  | some sz ↦ (do number ← lane_number number_of_elements; some (b'.' ∷ number ++ sz ∷ []))
]

-- The index is passed as 8 bits.
unfoldable pub print_index : ℕ → Option Text
print_index index = do number ← sprintf_s 3 (decimal (u8 index)); some (b'[' ∷ number ++ b']' ∷ [])

unfoldable pub print_prd : Bool → Text
print_prd zeroing = b'/' ∷ (if zeroing then codes "Z" else codes "M")

abbrev amount_text : Argument → Option Text
amount_text a =
    if not a.shifter.has_amount
    then some []
    else if a.print_amount_as_vl
    then some (codes " VL")
    else sprintf_s 10 (codes " #" ++ decimal a.shifter.amount)

unfoldable pub print_shifter : Strings → Argument → Option Text
print_shifter strings a = do
  name ← sprintf_s 5 (strings.shift_to_string a.shifter.kind)
  amount ← amount_text a
  some (codes ", " ++ name ++ amount)

-- Nothing, where the argument has no shifter.
abbrev shifter_text : Strings → Argument → Option Text
shifter_text strings a = if a.shifter.kind == shift_none then some [] else print_shifter strings a

abbrev register_text : Strings → ℕ → Option Text
register_text strings reg = sprintf_s 5 (strings.register_to_string reg)

abbrev lane_index_text : Argument → Option Text
lane_index_text a = do
  lane ← print_lane a.number_of_elements a.datatype
  index ← print_index a.reg_index
  some (lane ++ index)

-- What follows the name of a register.
abbrev reg_suffix : Strings → Argument → Option Text
reg_suffix strings a =
    if a.zeroing
    then some (print_prd true)
    else if a.merging
    then some (print_prd false)
    else if a.is_vector
    then print_lane a.number_of_elements a.datatype
    else if a.has_index
    then lane_index_text a
    else shifter_text strings a

unfoldable pub print_arg_reg : Strings → Argument → Option Text
unfolding print_prd print_lane print_index print_shifter
print_arg_reg strings a = do
  name ← register_text strings a.reg_value
  suffix ← reg_suffix strings a
  some (name ++ suffix)

abbrev is_float : Datatype → Bool
is_float Datatype.f16 = true
is_float Datatype.f32 = true
is_float Datatype.f64 = true
is_float _ = false

-- `imm` is a pattern of 64 bits.
unfoldable pub print_imm : Strings → Argument → ℕ → Datatype → Option Text
unfolding print_number
print_imm strings a imm datatype =
    if is_float datatype
    then sprintf_s 19 (strings.double_to_string a)
    else print_number (signed 64 imm) datatype

unfoldable pub print_arg_imm : Strings → Argument → Option Text
unfolding print_imm print_shifter
print_arg_imm strings a = do
  number ← print_imm strings a a.imm a.datatype
  shifter ← shifter_text strings a
  some (b'#' ∷ number ++ shifter)

unfoldable pub print_mem_reg : Strings → ℕ → ℕ → Option Text
print_mem_reg strings reg address_size = do
  name ← register_text strings reg
  let lane = b'.' ∷ (if address_size == 32 then b'S' else b'D') ∷ []
  some (name ++ (if leb register_z0 reg && leb reg register_z31 then lane else []))

unfoldable pub print_mem_offset : Strings → Argument → Option Text
unfolding print_mem_reg print_imm print_shifter
print_mem_offset strings a =
    if not (a.mem.regoff == register_none)
    then (do
      reg ← print_mem_reg strings a.mem.regoff a.mem.address_size
      shifter ← shifter_text strings a
      some (codes ", " ++ reg ++ shifter))
    else if not (a.mem.immoff_value == 0)
    then (do
      number ← print_imm strings a a.mem.immoff_value a.mem.immoff_datatype
      shifter ← shifter_text strings a
      some (codes ", #" ++ number ++ shifter))
    else some []

unfoldable pub print_arg_mem : Strings → Argument → Option Text
unfolding print_mem_reg print_mem_offset
print_arg_mem strings a = do
  base ← print_mem_reg strings a.mem.base a.mem.address_size
  offset ← print_mem_offset strings a
  let pre = codes "]" ++ (if a.is_pre_indexed then codes "!" else [])
  some (b'[' ∷ base ++ (if a.is_post_indexed then b']' ∷ offset else offset ++ pre))

abbrev comma_after : List ℕ → Text
comma_after [] = []
comma_after (r ∷ rs) = codes ", "

-- The loop over the registers of a list; a comma follows each but the last.
unfoldable pub list_loop : Strings → Argument → List ℕ → Option Text
unfolding print_lane
list_loop strings a [] = some []
list_loop strings a (r ∷ rs) =
    let rest = list_loop strings a rs in
    do
      name ← register_text strings r
      lane ← print_lane a.number_of_elements a.datatype
      texts ← rest
      some (name ++ lane ++ comma_after rs ++ texts)

unfoldable pub print_arg_list : Strings → Argument → Option Text
unfolding list_loop print_index
print_arg_list strings a = do
  texts ← list_loop strings a a.list_registers
  index ← if a.has_index then print_index a.list_index else some []
  some (codes "{ " ++ texts ++ codes " }" ++ index)

unfoldable pub print_arg_enum : Strings → (ℕ → Text) → ℕ → Argument → Option Text
unfolding print_arg_imm print_shifter
print_arg_enum strings func max_size a = do
  text ← if a.is_representable then sprintf_s max_size (func a.token) else print_arg_imm strings a
  shifter ← if a.has_shifter && a.print_shifter then print_shifter strings a else some []
  some (text ++ shifter)

-- `%d` of a number that is less by one, where 0 makes it -1.
abbrev decimal_below : ℕ → Text
decimal_below zero = codes "-1"
decimal_below (suc n) = decimal n

unfoldable pub print_sysreg_encoding : Argument → Option Text
print_sysreg_encoding a = sprintf_s 20 (
    codes "S"
    ++ decimal a.sysreg.op0
    ++ codes "_"
    ++ decimal a.sysreg.op1
    ++ codes "_C"
    ++ decimal_below a.sysreg.cn
    ++ codes "_C"
    ++ decimal_below a.sysreg.cm
    ++ codes "_"
    ++ decimal a.sysreg.op2)

-- The `switch` on the type of an argument.
unfoldable pub print_argument : Strings → Argument → Option Text
unfolding print_arg_reg print_sysreg_encoding print_arg_imm print_arg_mem print_arg_list
    print_arg_enum
print_argument strings a = elim (a.kind) [
  | ArgumentType.register ↦ print_arg_reg strings a
  | ArgumentType.sysreg_encoding ↦ print_sysreg_encoding a
  | ArgumentType.immediate ↦ print_arg_imm strings a
  | ArgumentType.label ↦ print_arg_imm strings a
  | ArgumentType.memory ↦ print_arg_mem strings a
  | ArgumentType.list ↦ print_arg_list strings a
  | ArgumentType.pattern ↦ print_arg_enum strings (strings.pattern_to_string) 6 a
  | ArgumentType.at_op ↦ print_arg_enum strings (strings.at_op_to_string) 7 a
  | ArgumentType.dc_op ↦ print_arg_enum strings (strings.dc_op_to_string) 8 a
  | ArgumentType.ic_op ↦ print_arg_enum strings (strings.ic_op_to_string) 8 a
  | ArgumentType.tlbi_op ↦ print_arg_enum strings (strings.tlbi_op_to_string) 13 a
  | ArgumentType.sync_op ↦ print_arg_enum strings (strings.sync_op_to_string) 6 a
  | ArgumentType.bti_op ↦ print_arg_enum strings (strings.bti_op_to_string) 5 a
  | ArgumentType.prf_op ↦ print_arg_enum strings (strings.prf_op_to_string) 10 a
  | ArgumentType.ctx_op ↦ print_arg_enum strings (strings.ctx_op_to_string) 5 a
  | ArgumentType.cspace ↦ print_arg_enum strings (strings.arm_cspace_to_string) 5 a
  | ArgumentType.pspace ↦ print_arg_enum strings (strings.arm_pspace_to_string) 5 a
  | ArgumentType.barrier ↦ print_arg_enum strings (strings.arm_barrier_to_string) 6 a
  | ArgumentType.condition ↦ print_arg_enum strings (strings.arm_condition_to_string) 5 a
  | _ ↦ some []
]
