-- ===== src/Aarch32/Printer/Distinct.antt =====
-- The data types of source/aarch32/printer.c, against those that the arguments have.
use amed.Base.{
  ℕ, zero, suc, ◌≡◌, refl, sym, ◌∙◌, ap, arith, Bool, true, false, not, ◌&&◌, ◌||◌, Option, some,
  List, [], ◌∷◌, ◌++◌, ◌==◌, if◌then◌else◌, if-cases, Bool-cases, inl, inr,
}
use mathlib.Core.List.{append-nil, append_assoc}
use amed.Base.Text.{Text, codes, sprintf_s, ◌>>=◌}
use amed.Utils.Datatype.{Datatype}
use amed.Aarch32.State.{Insn}
use amed.Aarch32.Printer.Operands.{Strings}
use amed.Aarch32.Printer.Datatypes.{
  datatype_value, is_datatype_none, note_datatype, datatypes_loop, written_datatypes, no_datatypes,
  print_datatypes,
}

-- The data types of those of the `n` arguments from `i` on that have one to be printed.
unfoldable pub marked : Insn → ℕ → ℕ → List Datatype
marked insn i zero = []
marked insn i (suc n) =
    let rest = marked insn (suc i) n in
    let a = insn.arguments i in
    if not (is_datatype_none a.datatype) && a.print_datatype then a.datatype ∷ rest else rest

unfoldable pub is_listed : List Datatype → Datatype → Bool
is_listed [] d = false
is_listed (x ∷ xs) d = datatype_value x == datatype_value d || is_listed xs d

-- Each data type once, where it comes first, but none that is among `seen`.
unfoldable pub distinct : List Datatype → List Datatype → List Datatype
unfolding is_listed
distinct seen [] = []
distinct seen (d ∷ ds) =
    let known = distinct seen ds in
    let new = distinct (seen ++ d ∷ []) ds in if is_listed seen d then known else d ∷ new

abbrev pub first_of : ℕ → List Datatype → List Datatype
first_of zero ds = []
first_of (suc n) [] = []
first_of (suc n) (d ∷ ds) = d ∷ first_of n ds

unfoldable pub datatypes_text : Strings → List Datatype → Option Text
datatypes_text strings [] = some []
datatypes_text strings (d ∷ ds) =
    let rest = datatypes_text strings ds in
    do
      text ← sprintf_s 10 (codes "." ++ strings.datatype_to_string d)
      texts ← rest
      some (text ++ texts)

-- The array of `n` places in which the data types are noted.
abbrev padded : ℕ → List Datatype → List Datatype
padded zero ds = []
padded (suc n) [] = Datatype.none ∷ padded n []
padded (suc n) (d ∷ ds) = d ∷ padded n ds

unfoldable AreProper : List Datatype → Type 0
AreProper [] = true ≡ true
AreProper (d ∷ ds) = (is_datatype_none d ≡ false) × AreProper ds

abbrev inserted : List Datatype → Datatype → List Datatype
inserted [] d = d ∷ []
inserted (x ∷ xs) d =
    let rest = inserted xs d in if datatype_value x == datatype_value d then x ∷ xs else x ∷ rest

note_datatype-padded :
    (n : ℕ) (ds : List Datatype) (d : Datatype)
    → AreProper ds
    → is_datatype_none d ≡ false
    → note_datatype (padded n ds) d ≡ padded n (inserted ds d)
unfolding note_datatype AreProper
note_datatype-padded zero ds d proper h = refl
note_datatype-padded (suc n) [] d proper h =
    let other : (0 == datatype_value d) ≡ false = ground arith in rw other refl
note_datatype-padded (suc n) (x ∷ xs) d proper h =
    let later = note_datatype-padded n xs d (proper.1) h in
    elim (Bool-cases (datatype_value x == datatype_value d)) [
      | inl e ↦ rw e refl
      | inr e ↦ rw (e, proper.0) (ap (λ (t : List Datatype). x ∷ t) later)
    ]

inserted-AreProper :
    (ds : List Datatype) (d : Datatype)
    → AreProper ds
    → is_datatype_none d ≡ false
    → AreProper (inserted ds d)
unfolding AreProper
inserted-AreProper [] d proper h = (h, refl)
inserted-AreProper (x ∷ xs) d proper h =
    if-cases AreProper (datatype_value x == datatype_value d) (λ _. proper)
      (λ _. (proper.0, inserted-AreProper xs d (proper.1) h))

inserted_lem :
    (ds : List Datatype) (d : Datatype)
    → inserted ds d ≡ (if is_listed ds d then ds else ds ++ d ∷ [])
unfolding is_listed
inserted_lem [] d = refl
inserted_lem (x ∷ xs) d = elim (Bool-cases (datatype_value x == datatype_value d)) [
  | inl e ↦ rw e refl
  | inr e ↦ elim (Bool-cases (is_listed xs d)) [
    | inl l ↦ rw (e, inserted_lem xs d, l) refl
    | inr l ↦ rw (e, inserted_lem xs d, l) refl
  ]
]

written_datatypes-padded :
    (strings : Strings) (n : ℕ) (ds : List Datatype)
    → AreProper ds
    → written_datatypes strings (padded n ds) ≡ datatypes_text strings (first_of n ds)
unfolding written_datatypes datatypes_text AreProper
written_datatypes-padded strings zero ds proper = refl
written_datatypes-padded strings (suc n) [] proper = refl
written_datatypes-padded strings (suc n) (d ∷ ds) proper =
    rw (proper.0, written_datatypes-padded strings n ds (proper.1)) refl

-- Noting one data type after the other, in the array and in a list without an end.
abbrev all_noted : List Datatype → List Datatype → List Datatype
all_noted array [] = array
all_noted array (d ∷ ds) = all_noted (note_datatype array d) ds

abbrev all_inserted : List Datatype → List Datatype → List Datatype
all_inserted seen [] = seen
all_inserted seen (d ∷ ds) = all_inserted (inserted seen d) ds

all_noted-padded :
    (n : ℕ) (seen ds : List Datatype)
    → AreProper seen
    → AreProper ds
    → all_noted (padded n seen) ds ≡ padded n (all_inserted seen ds)
unfolding AreProper
all_noted-padded n seen [] proper later = refl
all_noted-padded n seen (d ∷ ds) proper later =
    ap (λ (t : List Datatype). all_noted t ds) (note_datatype-padded n seen d proper (later.0))
    ∙ all_noted-padded n (inserted seen d) ds (inserted-AreProper seen d proper (later.0)) (later.1)

all_inserted-AreProper :
    (seen ds : List Datatype) → AreProper seen → AreProper ds → AreProper (all_inserted seen ds)
unfolding AreProper
all_inserted-AreProper seen [] proper later = proper
all_inserted-AreProper seen (d ∷ ds) proper later =
    all_inserted-AreProper (inserted seen d) ds (inserted-AreProper seen d proper (later.0))
      (later.1)

all_inserted-distinct : (seen ds : List Datatype) → all_inserted seen ds ≡ seen ++ distinct seen ds
unfolding distinct
all_inserted-distinct seen [] = sym (append-nil seen)
all_inserted-distinct seen (d ∷ ds) = elim (Bool-cases (is_listed seen d)) [
  | inl l ↦ rw (inserted_lem seen d, l) (all_inserted-distinct seen ds)
  | inr l ↦
      rw (inserted_lem seen d, l)
        (all_inserted-distinct (seen ++ d ∷ []) ds
          ∙ append_assoc seen (d ∷ []) (distinct (seen ++ d ∷ []) ds))
]

module _ (insn : Insn) where
  datatypes_loop-all_noted :
      (n i : ℕ) (array : List Datatype)
      → datatypes_loop insn i n array ≡ all_noted array (marked insn i n)
  unfolding datatypes_loop marked
  datatypes_loop-all_noted zero i array = refl
  datatypes_loop-all_noted (suc n) i array =
      let a = insn.arguments i in
      elim (Bool-cases (not (is_datatype_none (a.datatype)) && a.print_datatype)) [
        | inl e ↦ rw e (datatypes_loop-all_noted n (suc i) (note_datatype array (a.datatype)))
        | inr e ↦ rw e (datatypes_loop-all_noted n (suc i) array)
      ]

  marked-AreProper : (n i : ℕ) → AreProper (marked insn i n)
  unfolding marked AreProper
  marked-AreProper zero i = refl
  marked-AreProper (suc n) i =
      let a = insn.arguments i in
      let later = marked-AreProper n (suc i) in
      if-cases AreProper (not (is_datatype_none (a.datatype)) && a.print_datatype)
        (λ e. (ground arith, later)) (λ _. later)

  -- For every instruction, print_datatypes writes the first four of the data types that its arguments
  -- have to be printed, each once, in the order in which they come first, with a point before each.
  pub print_datatypes-distinct :
      (strings : Strings)
      → print_datatypes strings insn
        ≡ datatypes_text strings (first_of 4 (distinct [] (marked insn 0 (insn.argument_count))))
  unfolding print_datatypes AreProper
  print_datatypes-distinct strings =
      let ds = marked insn 0 (insn.argument_count) in
      let proper = marked-AreProper (insn.argument_count) 0 in
      ap (written_datatypes strings) (
        datatypes_loop-all_noted (insn.argument_count) 0 no_datatypes
        ∙ all_noted-padded 4 [] ds refl proper)
      ∙ written_datatypes-padded strings 4 (all_inserted [] ds)
          (all_inserted-AreProper [] ds refl proper)
      ∙ ap (λ (t : List Datatype). datatypes_text strings (first_of 4 t))
          (all_inserted-distinct [] ds)
