-- ===== src/Aarch32/Printer/Datatypes.antt =====
-- source/aarch32/printer.c, print_datatypes.
use amed.Base.{
  ℕ, zero, suc, Bool, not, ◌&&◌, Option, some, List, [], ◌∷◌, ◌++◌, ◌==◌, if◌then◌else◌,
}
use amed.Base.Text.{Text, codes, sprintf_s, ◌>>=◌}
use amed.Utils.Datatype.{Datatype}
use amed.Aarch32.State.{Insn}
use amed.Aarch32.Printer.Operands.{Strings}

-- The value of a data type in its enumeration.
abbrev pub datatype_value : Datatype → ℕ
datatype_value Datatype.none = 0
datatype_value Datatype.f16 = 1
datatype_value Datatype.bf16 = 2
datatype_value Datatype.f32 = 3
datatype_value Datatype.f64 = 4
datatype_value Datatype.f80 = 5
datatype_value Datatype.bcd80 = 6
datatype_value Datatype.i8 = 7
datatype_value Datatype.i16 = 8
datatype_value Datatype.i32 = 9
datatype_value Datatype.i64 = 10
datatype_value Datatype.i128 = 11
datatype_value Datatype.i256 = 12
datatype_value Datatype.s8 = 13
datatype_value Datatype.s16 = 14
datatype_value Datatype.s32 = 15
datatype_value Datatype.s64 = 16
datatype_value Datatype.u8 = 17
datatype_value Datatype.u16 = 18
datatype_value Datatype.u32 = 19
datatype_value Datatype.u64 = 20
datatype_value Datatype.u128 = 21
datatype_value Datatype.u256 = 22
datatype_value Datatype.p8 = 23
datatype_value Datatype.p64 = 24
datatype_value Datatype.ix = 25
datatype_value Datatype.sx = 26
datatype_value Datatype.ux = 27

abbrev pub is_datatype_none : Datatype → Bool
is_datatype_none d = datatype_value d == 0

-- The loop of `j`: the data type is in the array already, or takes its first free place, if any.
unfoldable pub note_datatype : List Datatype → Datatype → List Datatype
note_datatype [] d = []
note_datatype (x ∷ xs) d =
    let rest = note_datatype xs d in
    if datatype_value x == datatype_value d
    then x ∷ xs
    else if is_datatype_none x
    then d ∷ xs
    else x ∷ rest

-- The loop over the arguments from `i` on, `n` of them left.
unfoldable pub datatypes_loop : Insn → ℕ → ℕ → List Datatype → List Datatype
unfolding note_datatype
datatypes_loop insn i zero datatypes = datatypes
datatypes_loop insn i (suc n) datatypes =
    let a = insn.arguments i in
    datatypes_loop insn (suc i) n (
      if not (is_datatype_none a.datatype) && a.print_datatype
      then note_datatype datatypes (a.datatype)
      else datatypes)

-- The loop over the array, up to its first free place.
unfoldable pub written_datatypes : Strings → List Datatype → Option Text
written_datatypes strings [] = some []
written_datatypes strings (d ∷ ds) =
    let rest = written_datatypes strings ds in
    if is_datatype_none d then some [] else do
      text ← sprintf_s 10 (codes "." ++ strings.datatype_to_string d)
      texts ← rest
      some (text ++ texts)

abbrev pub no_datatypes : List Datatype
no_datatypes = Datatype.none ∷ Datatype.none ∷ Datatype.none ∷ Datatype.none ∷ []

unfoldable pub print_datatypes : Strings → Insn → Option Text
unfolding datatypes_loop written_datatypes
print_datatypes strings insn =
    written_datatypes strings (datatypes_loop insn 0 (insn.argument_count) no_datatypes)
