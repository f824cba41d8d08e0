-- ===== src/Aarch32/Arguments/Shifters.antt =====
-- source/aarch32/decoder.c, decode_arg_shifter and decode_arg_regsh.
use amed.Base.{
  ℕ, ◌+◌, true, false, not, ◌&&◌, List, [], ◌∷◌, ltb, ◌==◌, if◌then◌else◌, u8, u16, get_or,
}
use amed.Aarch32.Names.{register_r0, shift_asr, shift_lsl, shift_lsr, shift_ror, shift_rrx}
use amed.Aarch32.Database.{Any, Amount, Shifter, Database}
use amed.Aarch32.State.{ArgumentShifter, Argument, Internal, Result, ◌andthen◌}
use amed.Aarch32.Fields.{AnyValue, read_encodedin_value, decode_any}
use amed.Aarch32.Arguments.Registers.{decode_arg_reg}

abbrev std_shift : List ℕ
std_shift = shift_lsl ∷ shift_lsr ∷ shift_asr ∷ shift_ror ∷ []

-- The shift, with its attributes cleared. A field of the opcode is a standard shift; past the end of
-- that table is undefined. `failed` is a value that its table does not have.
pub data Shift : Type 0 where
  failed : Shift
  undefined : Shift
  shift : ℕ → Shift

unfoldable pub shift_of : AnyValue → Shift
shift_of AnyValue.failed = Shift.failed
shift_of (AnyValue.plain v) = Shift.shift v
shift_of (AnyValue.table v) = Shift.shift v
shift_of (AnyValue.encodedin v size) =
    if ltb v 4 then Shift.shift (get_or std_shift v 0) else Shift.undefined

-- The shift and its amount, where a field of the opcode is 0: LSR and ASR have the amount 32, and ROR
-- without an amount is RRX.
unfoldable pub zero_amount : ℕ → ArgumentShifter → ℕ × ArgumentShifter
zero_amount kind sh =
    if kind == shift_asr
    then (kind, record sh { amount = 32 })
    else if kind == shift_lsr
    then (kind, record sh { amount = 32 })
    else if kind == shift_ror
    then (shift_rrx, record sh { has_amount = false; amount = 0 })
    else (kind, record sh { amount = 0 })

-- What follows the call of decode_any; a value that its table does not have counts as 0.
unfoldable pub set_amount : AnyValue → ℕ → ArgumentShifter → ℕ × ArgumentShifter
set_amount AnyValue.failed kind sh = (kind, record sh { amount = 0 })
set_amount (AnyValue.plain v) kind sh = (kind, record sh { amount = u16 v })
set_amount (AnyValue.table v) kind sh = (kind, record sh { amount = u16 v })
set_amount (AnyValue.encodedin v size) kind sh =
    if v == 0 then zero_amount kind sh else (kind, record sh { amount = u16 v })

-- The amount: none, a register, or a number.
unfoldable pub decode_amount : Database → ℕ → Amount → ℕ → ArgumentShifter → ℕ × ArgumentShifter
unfolding set_amount zero_amount
decode_amount db opcode Amount.absent kind sh = (kind, sh)
decode_amount db opcode (Amount.rs node) kind sh =
    let (rs, size) = read_encodedin_value db opcode (node.encodedin) in
    (kind, record sh { has_register = true; amount = u16 (register_r0 + rs) })
decode_amount db opcode (Amount.amount node) kind sh =
    set_amount (decode_any db opcode node) kind (record sh { has_amount = true })

-- The last three statements.
abbrev finish_shifter : Argument → ℕ × ArgumentShifter → Argument
finish_shifter a (kind, sh) = record a {
  shifter = record sh { kind = u8 kind };
  has_shifter = true;
  print_shifter = not (kind == shift_lsl && sh.amount == 0);
}

unfoldable pub decode_arg_shifter : Database → Internal → Argument → Shifter → Result
decode_arg_shifter db s a node =
    let cleared = record (a.shifter) {
      is_visible = false;
      has_amount = false;
      has_register = false;
    } in
    let a1 = record a { shifter = cleared } in
    elim (shift_of (decode_any db (s.opcode) (node.shift))) [
      | Shift.failed ↦ Result.failed s a1
      | Shift.undefined ↦ Result.undefined
      | Shift.shift kind ↦
          Result.decoded s
            (finish_shifter a1 (decode_amount db (s.opcode) (node.amount) kind cleared))
    ]

unfoldable pub decode_arg_regsh : Database → Internal → Argument → Any → Shifter → Result
decode_arg_regsh db s a reg shifter =
    decode_arg_reg db s a reg andthen λ s1 a1. decode_arg_shifter db s1 a1 shifter
