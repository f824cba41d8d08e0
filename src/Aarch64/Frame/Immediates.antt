-- ===== src/Aarch64/Frame/Immediates.antt =====
-- The frame of the immediates: a field that is extended by its sign has 1 to 64 bits.
use amed.Base.{
  ℕ, ◌+◌, ◌-◌, ◌≡◌, ◌≢◌, ◌≤◌, ◌<◌, refl, arith, true, Option, none, some, List, [], ◌∷◌, if-cases,
  some-cases, ◌==◌,
}
use amed.Utils.Binary.{sign_extend64}
use amed.Aarch64.Names.{Symbol}
use amed.Aarch64.Database.{Piece, Any, Shifter, Database}
use amed.Aarch64.State.{Argument, Internal, Result}
use amed.Aarch64.Fields.{AnyValue, pieces_loop, read_encodedin_value, lookup_tv, decode_any}
use amed.Aarch64.Arguments.Immediates.{
  decode_imm_default, decode_imm_symbol, decode_imm_any, decode_arg_imm, decode_arg_immsh,
  decode_arg_fpimm, decode_arg_label,
}
use amed.Aarch64.Frame.{Frame-flags, Kept, decoded-Kept, flags-Kept, andthen-Kept}
use amed.Aarch64.Frame.Registers.{decode_arg_shifter-Kept}

-- The bits of a run of pieces.
abbrev pub bits : List Piece → ℕ
bits [] = 0
bits (p ∷ ps) = p.size + bits ps

-- A field that is extended by its sign has bits, at most 64 of them.
abbrev pub IsExtensible : Database → Any → Type 0
IsExtensible db n =
    n.signpos ≡ true
    → (1 ≤ bits (db.encodedins n.encodedin)) × (bits (db.encodedins n.encodedin) ≤ 64)

pieces_loop-bits :
    (opcode : ℕ) (ps : List Piece) (result gsize : ℕ)
    → (pieces_loop opcode ps result gsize).1 ≡ gsize + bits ps
unfolding pieces_loop
pieces_loop-bits opcode [] result gsize = omega arith
pieces_loop-bits opcode (p ∷ ps) result gsize =
    omega (arith, pieces_loop-bits opcode ps _ (gsize + p.size))

sign_extend64-some : (v i : ℕ) → i < 64 → sign_extend64 v i ≢ none
unfolding sign_extend64
sign_extend64-some v i h e = ground (arith, e)

decode_imm_default-some :
    (n : Any) (v size : ℕ)
    → (n.signpos ≡ true → (1 ≤ size) × (size ≤ 64))
    → decode_imm_default n v size ≢ none
unfolding decode_imm_default
decode_imm_default-some n v size h =
    if-cases (λ (o : Option ℕ). o ≢ none) (n.signpos)
      (λ e.
        if-cases (λ (o : Option ℕ). o ≢ none) (size == 0) (λ z. absurd (ground (arith, h e, z)))
          (λ _.
            some-cases (λ (o : Option ℕ). o ≢ none) (sign_extend64 v (size - 1))
              (λ none_e. absurd (sign_extend64-some v (size - 1) (ground (arith, h e)) none_e))
              (λ _ _ e2. cc)))
      (λ _ e. cc)

-- The cases of a symbol that is none of the names above.
other_lem :
    (s : Internal) (a : Argument) (o : Option ℕ)
    → o ≢ none
    → Kept s
        (elim o [ none ↦ Result.undefined | some imm ↦ Result.decoded s (record a { imm = imm }) ])
other_lem s a none h = absurd (h refl)
other_lem s a (some imm) h = decoded-Kept s _

decode_imm_symbol-Kept :
    (s : Internal) (a : Argument) (n : Any) (v size : ℕ) (symbol : Symbol)
    → decode_imm_default n v size ≢ none
    → Kept s (decode_imm_symbol s a n v size symbol)
unfolding decode_imm_symbol
decode_imm_symbol-Kept s a n v size Symbol.wide_imm_inverted h = decoded-Kept s _
decode_imm_symbol-Kept s a n v size Symbol.wide_imm_alias h = decoded-Kept s _
decode_imm_symbol-Kept s a n v size Symbol.advimm h = decoded-Kept s _
decode_imm_symbol-Kept s a n v size Symbol.vfpimm h = decoded-Kept s _
decode_imm_symbol-Kept s a n v size Symbol.aimm h = decoded-Kept s _
decode_imm_symbol-Kept s a n v size Symbol.shift_left h = decoded-Kept s _
decode_imm_symbol-Kept s a n v size Symbol.fbits_right h = decoded-Kept s _
decode_imm_symbol-Kept s a n v size Symbol.shift_right h = decoded-Kept s _
decode_imm_symbol-Kept s a n v size Symbol.lsb h = flags-Kept s _ _ (Frame-flags s _ refl refl refl)
decode_imm_symbol-Kept s a n v size Symbol.width h = decoded-Kept s _
decode_imm_symbol-Kept s a n v size _ h = other_lem s a _ h

-- The number of bits that a field comes with is that of its pieces.
abbrev HasBits : Database → Any → AnyValue → Type 0
HasBits db n (AnyValue.encodedin v size) = size ≡ bits (db.encodedins (n.encodedin))
HasBits db n _ = Unit {0}

decode_any-HasBits : (db : Database) (opcode : ℕ) (n : Any) → HasBits db n (decode_any db opcode n)
unfolding decode_any read_encodedin_value
decode_any-HasBits db opcode n =
    if-cases (HasBits db n) (n.has_encodedin)
      (λ _.
        some-cases (HasBits db n) (n.table)
          (λ _. omega (arith, pieces_loop-bits opcode (db.encodedins (n.encodedin)) 0 0))
          (λ items _. some-cases (HasBits db n) (lookup_tv items _) (λ _. tt) (λ _ _. tt)))
      (λ _. tt)

decode_imm_any-Kept :
    (db : Database) (s : Internal) (a : Argument) (n : Any) (value : AnyValue)
    → IsExtensible db n
    → HasBits db n value
    → Kept s (decode_imm_any s a n value)
unfolding decode_imm_any
decode_imm_any-Kept db s a n AnyValue.failed h bits_e = decoded-Kept s _
decode_imm_any-Kept db s a n (AnyValue.plain v) h bits_e = decoded-Kept s _
decode_imm_any-Kept db s a n (AnyValue.table tv) h bits_e = decoded-Kept s _
decode_imm_any-Kept db s a n (AnyValue.encodedin v size) h bits_e =
    decode_imm_symbol-Kept s _ n v size (n.symbol)
      (decode_imm_default-some n v size (λ e. rw bits_e (h e)))

module _ (db : Database) (s : Internal) (a : Argument) (n : Any) (h : IsExtensible db n) where
  pub decode_arg_imm-Kept : Kept s (decode_arg_imm db s a n)
  unfolding decode_arg_imm
  decode_arg_imm-Kept = decode_imm_any-Kept db s _ n _ h (decode_any-HasBits db (s.opcode) n)

  pub decode_arg_immsh-Kept : (sh : Shifter) → Kept s (decode_arg_immsh db s a n sh)
  unfolding decode_arg_immsh
  decode_arg_immsh-Kept sh =
      andthen-Kept s (decode_arg_imm db s a n) _ decode_arg_imm-Kept
        (λ t b. decode_arg_shifter-Kept db t b sh)

  pub decode_arg_fpimm-Kept : Kept s (decode_arg_fpimm db s a n)
  unfolding decode_arg_fpimm
  decode_arg_fpimm-Kept = decode_arg_imm-Kept

  pub decode_arg_label-Kept : Kept s (decode_arg_label db s a n)
  unfolding decode_arg_label
  decode_arg_label-Kept =
      andthen-Kept s (decode_arg_imm db s a n) _ decode_arg_imm-Kept (λ t b. decoded-Kept t _)
