-- ===== src/Aarch64/Arguments/Shifters.antt =====
-- source/aarch64/decoder.c, decode_arg_shifter and the registers that have a shifter, a vector
-- arrangement, an index or a predicate.
use amed.Base.{
  ℕ, ◌+◌, ◌-◌, ◌*◌, ◌/◌, ◌^◌, Bool, true, false, not, ◌&&◌, ◌||◌, Option, none, some, leb, ◌==◌,
  if◌then◌else◌, u8, u16, u32,
}
use amed.Aarch64.Names.{Symbol, Vdt, shift_lsl, shift_mul, shift_sxtb, shift_uxtx}
use amed.Aarch64.Database.{Any, Ereg, Shifter, Database}
use amed.Aarch64.State.{Argument, Internal, Result, ◌andthen◌}
use amed.Aarch64.Fields.{
  value_of, read_encodedin_value, lookup_tv, decode_any, get_element_size_from_vdt,
  get_number_of_elements_from_vdt,
}
use amed.Aarch64.Arguments.Registers.{decode_arg_reg}

-- What the function stores before it looks at the node.
abbrev start_shifter : Argument → Argument
start_shifter a = record a {
  has_shifter = true;
  print_shifter = true;
  shifter = record (a.shifter) { amount = 0; has_amount = false };
}

-- AMOUNT_VL as a pattern of 32 bits.
abbrev pub amount_vl : ℕ
amount_vl = 2 ^ 32 - 1

-- The amount as it is stored, and whether it is to be printed as VL.
unfoldable pub shifter_amount : ℕ → ℕ → ℕ → ℕ × Bool
shifter_amount scale shift amount =
    let scaled = if scale == 0 then amount else u32 (amount * scale) in
    if scaled == amount_vl
    then (u16 scaled, true)
    else if shift == shift_mul
    then (u16 (scaled + 1), false)
    else (u16 scaled, false)

-- The last two statements.
unfoldable pub finish_shifter : Argument → Argument
finish_shifter a =
    let sh = a.shifter in
    let is_extend = leb shift_sxtb sh.kind && leb sh.kind shift_uxtx in
    record a {
      shifter = record sh {
        has_amount = if sh.amount == 0 && is_extend then false else sh.has_amount;
      };
      print_shifter = not (sh.kind == shift_lsl && sh.amount == 0);
    }

-- The amount of a shifter without a field of its own; `none` where it has no value.
unfoldable pub set_amount : Database → ℕ → Option Any → ℕ → Argument → Option Argument
set_amount db opcode none shift a = some a
set_amount db opcode (some node) shift a = elim (value_of (decode_any db opcode node)) [
  | none ↦ none
  | some amount ↦
      (let (stored, as_vl) = shifter_amount (node.scale) shift amount in
        some (record a {
          print_amount_as_vl = as_vl || a.print_amount_as_vl;
          shifter = record (a.shifter) { amount = stored; has_amount = true };
        }))
]

unfoldable pub decode_arg_shifter : Database → Internal → Argument → Shifter → Result
decode_arg_shifter db s a node =
    let a1 = start_shifter a in
    let (raw, size) = read_encodedin_value db (s.opcode) (node.encodedin) in
    if node.has_encodedin
    then elim (lookup_tv (node.table) raw) [
      | none ↦ Result.failed s a1
      | some tv ↦ Result.decoded s (record a1 {
        shifter = record { kind = u8 tv.value; has_amount = true; amount = u16 tv.amount };
      })
    ]
    else elim (value_of (decode_any db (s.opcode) (node.shift))) [
      | none ↦ Result.failed s a1
      | some shift ↦
          (let a2 = record a1 { shifter = record (a1.shifter) { kind = u8 shift } } in
            elim (set_amount db (s.opcode) (node.amount) shift a2) [
              | none ↦ Result.failed s a2
              | some a3 ↦ Result.decoded s (finish_shifter a3)
            ])
    ]

unfoldable pub decode_arg_regsh : Database → Internal → Argument → Any → Shifter → Result
decode_arg_regsh db s a reg shifter =
    decode_arg_reg db s a reg andthen λ s1 a1. decode_arg_shifter db s1 a1 shifter

-- The number of elements of a vector register, of 8 bits.
unfoldable pub vector_elements : Database → Argument → Vdt → ℕ
vector_elements db a vdt =
    let esize = get_element_size_from_vdt vdt in
    elim ((db.reginfo (a.reg_value)).kind) [
      | Symbol.svereg ↦ if esize == 0 then a.number_of_elements else u8 (a.size / esize)
      | Symbol.vecreg ↦ get_number_of_elements_from_vdt vdt
      | _ ↦ a.number_of_elements
    ]

unfoldable pub decode_arg_vreg : Database → Internal → Argument → Ereg → Result
decode_arg_vreg db s a node = decode_arg_reg db s a (node.reg) andthen λ s1 a1.
    Result.decoded (record s1 { insn = record (s1.insn) { is_vector = true } })
      (record a1 {
        number_of_elements = vector_elements db a1 (node.vdt);
        is_vector = true;
        print_datatype = true;
      })

unfoldable pub decode_arg_vregsh : Database → Internal → Argument → Ereg → Shifter → Result
decode_arg_vregsh db s a reg shifter =
    decode_arg_vreg db s a reg andthen λ s1 a1. decode_arg_shifter db s1 a1 shifter

unfoldable pub decode_arg_ereg : Database → Internal → Argument → Ereg → Result
decode_arg_ereg db s a node = decode_arg_reg db s a (node.reg) andthen λ s1 a1.
    elim (value_of (decode_any db (s1.opcode) (node.idx))) [
      | none ↦ Result.failed s1 a1
      | some index ↦
          Result.decoded s1
            (record a1 { reg_index = index; has_index = true; print_datatype = true })
    ]

unfoldable pub decode_arg_preg : Database → Internal → Argument → Any → Result
decode_arg_preg db s a node = decode_arg_reg db s a node andthen λ s1 a1.
    Result.decoded (record s1 { insn = record (s1.insn) { is_predicated = true } })
      (record a1 { zeroing = node.zeroing; merging = node.merging })
