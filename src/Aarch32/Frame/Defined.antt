-- ===== src/Aarch32/Frame/Defined.antt =====
-- The arguments of source/aarch32/decoder.c: for which fields of the opcode C defines a node's decoding.
use amed.Base.{
  ℕ, ◌*◌, ◌≡◌, refl, arith, Bool, true, false, not, ◌&&◌, ◌||◌, Option, none, some, leb, ltb, ◌==◌,
  if-cases, field, is_some, Bool-cases, inl, inr,
}
use amed.Utils.Binary.{ror, sign_extend64}
use amed.Utils.Datatype.{Datatype}
use amed.Aarch32.Names.{Symbol, register_pc, register_sp}
use amed.Aarch32.Database.{Any, Database}
use amed.Aarch32.State.{Argument, Internal, Result, ◌andthen◌}
use amed.Aarch32.Fields.{AnyValue}
use amed.Aarch32.Immediates.{decode_a32_imm, decode_t32_imm}
use amed.Aarch32.Arguments.Registers.{decode_reg_node, decode_arg_reg}
use amed.Aarch32.Arguments.Shifters.{Shift, shift_of}
use amed.Aarch32.Arguments.Immediates.{
  of_option, checked, decode_imm_default, decode_imm_symbol, decode_imm_any,
}
use amed.Aarch32.Frame.{Kept}

abbrev pub is_defined : Result → Bool
is_defined (Result.decoded s a) = true
is_defined (Result.failed s a) = true
is_defined Result.undefined = false

abbrev pub Defined : Result → Type 0
Defined r = is_defined r ≡ true

pub andthen-Defined :
    (s : Internal) (r : Result) (k : Internal → Argument → Result)
    → Kept s r
    → Defined r
    → ((t : Internal) (a : Argument) → t.opcode ≡ s.opcode → Defined (k t a))
    → Defined (r andthen k)
unfolding Kept
andthen-Defined s (Result.decoded t a) k kept h f = f t a kept.same_opcode
andthen-Defined s (Result.failed t a) k kept h f = refl
andthen-Defined s Result.undefined k kept h f = h

-- A standard shift is one of four.
abbrev pub shift_fits : AnyValue → Bool
shift_fits (AnyValue.encodedin v size) = ltb v 4
shift_fits _ = true

-- A value that is extended by its sign has 1 to 64 bits.
abbrev pub extends : Bool → ℕ → Bool
extends signpos size = not signpos || not (size == 0) && leb size 64

-- A modified immediate of A32 is rotated, and one of T32 has 12 bits.
abbrev pub symbol_fits : Bool → ℕ → ℕ → Symbol → Bool
symbol_fits signpos v size Symbol.width = true
symbol_fits signpos v size Symbol.lsb = true
symbol_fits signpos v size Symbol.aimm = not (field 8 4 v == 0)
symbol_fits signpos v size Symbol.timm = true
symbol_fits signpos v size Symbol.vfpimm = true
symbol_fits signpos v size Symbol.advimm = true
symbol_fits signpos v size Symbol.shift_left = true
symbol_fits signpos v size Symbol.fbits_right = true
symbol_fits signpos v size Symbol.shift_right = true
symbol_fits signpos v size _ = extends signpos size

abbrev pub imm_fits : Any → AnyValue → Bool
imm_fits n (AnyValue.encodedin v size) = symbol_fits (n.signpos) v size (n.symbol)
imm_fits n _ = true

pub decode_a32_imm-is_some :
    (v : ℕ) → not (field 8 4 v == 0) ≡ true → is_some (decode_a32_imm v) ≡ true
unfolding decode_a32_imm ror
decode_a32_imm-is_some v h =
    let low : (field 8 4 v * 2 == 0) ≡ false = ground (arith, h) in
    let high : leb 32 (field 8 4 v * 2) ≡ false = ground arith in rw (low, high) refl

decode_t32_imm-is_some : (v : ℕ) → is_some (decode_t32_imm v) ≡ true
unfolding decode_t32_imm ror
decode_t32_imm-is_some v = elim (Bool-cases (field 10 2 v == 0)) [
  | inl e ↦ rw e refl
  | inr e ↦
      (let low : (field 7 5 v == 0) ≡ false = ground (arith, e) in
        let high : leb 32 (field 7 5 v) ≡ false = ground arith in rw (e, low, high) refl)
]

pub sign_extend64-is_some : (v i : ℕ) → leb 64 i ≡ false → is_some (sign_extend64 v i) ≡ true
unfolding sign_extend64
sign_extend64-is_some v i h = rw h refl

-- A value that is asked for, where there is one.
pub some-Defined :
    {A : Type 0} (o : Option A) (f : A → Result)
    → is_some o ≡ true
    → ((v : A) → Defined (f v))
    → Defined (elim o [ none ↦ Result.undefined | some v ↦ f v ])
some-Defined none f h g = h
some-Defined (some v) f h g = g v

pub shift-Defined :
    (s : Internal) (a : Argument) (k : ℕ → Argument) (v : AnyValue)
    → shift_fits v ≡ true
    → Defined (elim (shift_of v) [
      | Shift.failed ↦ Result.failed s a
      | Shift.undefined ↦ Result.undefined
      | Shift.shift kind ↦ Result.decoded s (k kind)
    ])
unfolding shift_of
shift-Defined s a k AnyValue.failed h = refl
shift-Defined s a k (AnyValue.plain v) h = refl
shift-Defined s a k (AnyValue.table v) h = refl
shift-Defined s a k (AnyValue.encodedin v size) h = rw h refl

of_option-Defined :
    (s : Internal) (a : Argument) (dt : Datatype) (o : Option ℕ)
    → is_some o ≡ true
    → Defined (of_option s a dt o)
of_option-Defined s a dt none h = h
of_option-Defined s a dt (some v) h = refl

checked-Defined : (ok : Bool) (s : Internal) (a : Argument) → Defined (checked ok s a)
checked-Defined true s a = refl
checked-Defined false s a = refl

decode_imm_default-is_some :
    (n : Any) (v size : ℕ)
    → extends (n.signpos) size ≡ true
    → is_some (decode_imm_default n v size) ≡ true
unfolding decode_imm_default sign_extend64
decode_imm_default-is_some n v size h = ground (arith, h)

decode_imm_symbol-Defined :
    (s : Internal) (a : Argument) (n : Any) (v size : ℕ) (symbol : Symbol)
    → symbol_fits (n.signpos) v size symbol ≡ true
    → Defined (decode_imm_symbol s a n v size symbol)
unfolding decode_imm_symbol
decode_imm_symbol-Defined s a n v size Symbol.width h = refl
decode_imm_symbol-Defined s a n v size Symbol.lsb h = refl
decode_imm_symbol-Defined s a n v size Symbol.aimm h =
    of_option-Defined s a _ _ (decode_a32_imm-is_some v h)
decode_imm_symbol-Defined s a n v size Symbol.timm h =
    of_option-Defined s a _ _ (decode_t32_imm-is_some v)
decode_imm_symbol-Defined s a n v size Symbol.vfpimm h = checked-Defined _ s _
decode_imm_symbol-Defined s a n v size Symbol.advimm h = checked-Defined _ s _
decode_imm_symbol-Defined s a n v size Symbol.shift_left h = refl
decode_imm_symbol-Defined s a n v size Symbol.fbits_right h = refl
decode_imm_symbol-Defined s a n v size Symbol.shift_right h = refl
decode_imm_symbol-Defined s a n v size _ h =
    of_option-Defined s a _ _ (decode_imm_default-is_some n v size h)

pub decode_imm_any-Defined :
    (s : Internal) (a : Argument) (n : Any) (value : AnyValue)
    → imm_fits n value ≡ true
    → Defined (decode_imm_any s a n value)
unfolding decode_imm_any
decode_imm_any-Defined s a n AnyValue.failed h = refl
decode_imm_any-Defined s a n (AnyValue.plain v) h = refl
decode_imm_any-Defined s a n (AnyValue.table v) h = refl
decode_imm_any-Defined s a n (AnyValue.encodedin v size) h =
    decode_imm_symbol-Defined s a n v size (n.symbol) h

pub decode_arg_reg-Defined :
    (db : Database) (s : Internal) (a : Argument) (n : Any) → Defined (decode_arg_reg db s a n)
unfolding decode_arg_reg
decode_arg_reg-Defined db s a n =
    if-cases Defined ((decode_reg_node db (s.opcode) n).0 == register_pc)
      (λ _. if-cases Defined (n.nopc) (λ _. refl) (λ _. refl))
      (λ _.
        if-cases Defined ((decode_reg_node db (s.opcode) n).0 == register_sp && n.nosp) (λ _. refl)
          (λ _. refl))
