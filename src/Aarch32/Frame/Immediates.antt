-- ===== src/Aarch32/Frame/Immediates.antt =====
-- The immediates, the labels and the names of source/aarch32/decoder.c, and what they leave as it was.
use amed.Base.{
  ℕ, refl, Bool, true, false, ◌||◌, Option, none, some, leb, ltb, ◌==◌, if-cases, some-cases,
}
use amed.Utils.Binary.{sign_extend64}
use amed.Utils.Datatype.{Datatype}
use amed.Aarch32.Names.{Symbol}
use amed.Aarch32.Database.{Any, Shifter, Database}
use amed.Aarch32.State.{ArgumentType, Argument, Internal}
use amed.Aarch32.Fields.{AnyValue, read_encodedin_value, decode_any, value_of, lookup_tv}
use amed.Aarch32.Immediates.{decode_a32_imm}
use amed.Aarch32.Arguments.Immediates.{
  of_option, checked, decode_imm_symbol, decode_imm_any, decode_arg_imm, decode_arg_immsh,
}
use amed.Aarch32.Arguments.Labels.{plain_label, label_symbol, decode_arg_label}
use amed.Aarch32.Arguments.Enums.{
  enum_argument_type, decode_enum, decode_arg_enum, decode_arg_iflags, decode_arg_sysreg,
}
use amed.Aarch32.Frame.{Kept, decoded-Kept, read-Kept, failed-Kept, undefined-Kept, andthen-Kept}
use amed.Aarch32.Frame.Registers.{decode_arg_shifter-Kept}

of_option-Kept :
    (s : Internal) (a : Argument) (dt : Datatype) (o : Option ℕ) → Kept s (of_option s a dt o)
of_option-Kept s a dt none = undefined-Kept s
of_option-Kept s a dt (some v) = read-Kept s _

checked-Kept : (ok : Bool) (s : Internal) (a : Argument) → Kept s (checked ok s a)
checked-Kept true s a = read-Kept s a
checked-Kept false s a = failed-Kept s a

decode_imm_symbol-Kept :
    (s : Internal) (a : Argument) (n : Any) (v size : ℕ) (symbol : Symbol)
    → Kept s (decode_imm_symbol s a n v size symbol)
unfolding decode_imm_symbol
decode_imm_symbol-Kept s a n v size Symbol.width = read-Kept s _
decode_imm_symbol-Kept s a n v size Symbol.lsb = decoded-Kept s _ _ refl refl refl refl
decode_imm_symbol-Kept s a n v size Symbol.aimm = of_option-Kept s a _ _
decode_imm_symbol-Kept s a n v size Symbol.timm = of_option-Kept s a _ _
decode_imm_symbol-Kept s a n v size Symbol.vfpimm = checked-Kept _ s _
decode_imm_symbol-Kept s a n v size Symbol.advimm = checked-Kept _ s _
decode_imm_symbol-Kept s a n v size Symbol.shift_left = read-Kept s _
decode_imm_symbol-Kept s a n v size Symbol.fbits_right = read-Kept s _
decode_imm_symbol-Kept s a n v size Symbol.shift_right = read-Kept s _
decode_imm_symbol-Kept s a n v size _ = of_option-Kept s a _ _

decode_imm_any-Kept :
    (s : Internal) (a : Argument) (n : Any) (value : AnyValue) → Kept s (decode_imm_any s a n value)
unfolding decode_imm_any
decode_imm_any-Kept s a n AnyValue.failed = read-Kept s _
decode_imm_any-Kept s a n (AnyValue.plain v) = read-Kept s _
decode_imm_any-Kept s a n (AnyValue.table v) = read-Kept s _
decode_imm_any-Kept s a n (AnyValue.encodedin v size) =
    decode_imm_symbol-Kept s a n v size (n.symbol)

plain_label-Kept :
    (s : Internal) (a : Argument) (n : Any) (scale nb value : ℕ)
    → Kept s (plain_label s a n scale nb value)
unfolding plain_label
plain_label-Kept s a n scale nb value =
    if-cases (Kept s) (n.signpos)
      (λ _.
        some-cases (Kept s) (sign_extend64 value _) (λ _. undefined-Kept s) (λ _ _. read-Kept s _))
      (λ _. read-Kept s _)

label_symbol-Kept :
    (s : Internal) (a : Argument) (n : Any) (scale nb value : ℕ) (symbol : Symbol)
    → Kept s (label_symbol s a n scale nb value symbol)
unfolding label_symbol
label_symbol-Kept s a n scale nb value Symbol.plabel = read-Kept s _
label_symbol-Kept s a n scale nb value Symbol.nlabel = read-Kept s _
label_symbol-Kept s a n scale nb value Symbol.plabela =
    some-cases (Kept s) (decode_a32_imm value) (λ _. undefined-Kept s) (λ _ _. read-Kept s _)
label_symbol-Kept s a n scale nb value Symbol.nlabela =
    some-cases (Kept s) (decode_a32_imm value) (λ _. undefined-Kept s) (λ _ _. read-Kept s _)
label_symbol-Kept s a n scale nb value Symbol.labelj =
    if-cases (Kept s) (ltb nb 3) (λ _. undefined-Kept s) (λ _. plain_label-Kept s a n scale nb _)
label_symbol-Kept s a n scale nb value Symbol.label = plain_label-Kept s a n scale nb value
label_symbol-Kept s a n scale nb value _ = failed-Kept s a

module _ (db : Database) (s : Internal) (a : Argument) (n : Any) where
  pub decode_arg_imm-Kept : Kept s (decode_arg_imm db s a n)
  unfolding decode_arg_imm
  decode_arg_imm-Kept = decode_imm_any-Kept s _ n _

  pub decode_arg_immsh-Kept : (sh : Shifter) → Kept s (decode_arg_immsh db s a n sh)
  unfolding decode_arg_immsh
  decode_arg_immsh-Kept sh =
      andthen-Kept s (decode_arg_imm db s a n) _ decode_arg_imm-Kept
        (λ t b. decode_arg_shifter-Kept db t b sh)

  pub decode_arg_label-Kept : Kept s (decode_arg_label db s a n)
  unfolding decode_arg_label
  decode_arg_label-Kept =
      let nb = (read_encodedin_value db (s.opcode) (n.encodedin)).1 in
      if-cases (Kept s) (nb == 0 || leb 33 nb) (λ _. undefined-Kept s)
        (λ _. label_symbol-Kept s _ n _ nb _ (n.symbol))

  decode_enum-Kept : (b : Argument) (kind : ArgumentType) → Kept s (decode_enum db s b n kind)
  unfolding decode_enum
  decode_enum-Kept b kind =
      if-cases (Kept s) (n.has_encodedin)
        (λ _.
          some-cases (Kept s) (n.table) (λ _. read-Kept s _)
            (λ items _.
              some-cases (Kept s) (lookup_tv items _) (λ _. read-Kept s _) (λ _ _. read-Kept s _)))
        (λ _. read-Kept s _)

  pub decode_arg_enum-Kept : Kept s (decode_arg_enum db s a n)
  unfolding decode_arg_enum
  decode_arg_enum-Kept =
      some-cases (Kept s) (enum_argument_type (n.enum_type)) (λ _. failed-Kept s _)
        (λ kind _. decode_enum-Kept _ kind)

  pub decode_arg_iflags-Kept : Kept s (decode_arg_iflags db s a n)
  unfolding decode_arg_iflags
  decode_arg_iflags-Kept =
      some-cases (Kept s) (value_of (decode_any db (s.opcode) n)) (λ _. failed-Kept s _)
        (λ _ _. decoded-Kept s _ _ refl refl refl refl)

  pub decode_arg_sysreg-Kept : Kept s (decode_arg_sysreg db s a n)
  unfolding decode_arg_sysreg
  decode_arg_sysreg-Kept =
      andthen-Kept s (decode_arg_enum db s a n) _ decode_arg_enum-Kept (λ t b. read-Kept t _)
