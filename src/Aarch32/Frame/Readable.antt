-- ===== src/Aarch32/Frame/Readable.antt =====
-- The nodes of source/aarch32/decoder.c whose decoding C defines for an opcode.
use amed.Base.{
  ℕ, ◌-◌, ◌≡◌, refl, sym, subst, arith, Bool, true, false, not, ◌&&◌, ◌||◌, leb, ltb, ◌==◌,
  if◌then◌else◌, if-cases, some-cases, field, u16,
}
use amed.Aarch32.Names.{Symbol, register_r0, register_pc, register_sp}
use amed.Aarch32.Database.{Any, Ereg, Wreg, Shifter, ImmReg, Database}
use amed.Aarch32.State.{Argument, Internal, Result, ◌andthen◌}
use amed.Aarch32.Fields.{read_encodedin_value, decode_any, value_of}
use amed.Aarch32.Arguments.Registers.{
  decode_reg_node, set_reg, set_wback, is_wback16, decode_arg_reg, decode_arg_vreg, decode_arg_ereg,
  decode_wback, decode_arg_wreg,
}
use amed.Aarch32.Arguments.Shifters.{decode_arg_shifter, decode_arg_regsh}
use amed.Aarch32.Arguments.Immediates.{decode_arg_imm, decode_arg_immsh}
use amed.Aarch32.Arguments.Labels.{plain_label, label_symbol, decode_arg_label}
use amed.Aarch32.Frame.Registers.{decode_arg_reg-Kept}
use amed.Aarch32.Frame.Immediates.{decode_arg_imm-Kept}
use amed.Aarch32.Frame.Defined.{
  Defined, andthen-Defined, shift_fits, imm_fits, decode_a32_imm-is_some, sign_extend64-is_some,
  some-Defined, shift-Defined, decode_imm_any-Defined, decode_arg_reg-Defined,
}

-- A modified immediate is rotated, and a jump has a sign, J1 and J2.
abbrev pub label_symbol_fits : ℕ → ℕ → Symbol → Bool
label_symbol_fits v nb Symbol.plabela = not (field 8 4 v == 0)
label_symbol_fits v nb Symbol.nlabela = not (field 8 4 v == 0)
label_symbol_fits v nb Symbol.labelj = leb 3 nb
label_symbol_fits v nb _ = true

module _ (db : Database) (opcode : ℕ) where
  abbrev pub shifter_fits : Shifter → Bool
  shifter_fits sh = shift_fits (decode_any db opcode sh.shift)

  abbrev pub node_imm_fits : Any → Bool
  node_imm_fits n = imm_fits n (decode_any db opcode n)

  -- The register of a 16-bit load or store of a list has a number below 32.
  abbrev pub wreg_fits : Wreg → Bool
  wreg_fits n =
      let value = u16 (decode_reg_node db opcode n.reg).0 in
      not (n.wback.has_encodedin && is_wback16 n.wback.symbol)
      || leb register_r0 value && leb value 32

  -- A label has 1 to 32 bits.
  abbrev pub label_fits : Any → Bool
  label_fits n =
      let (v, nb) = read_encodedin_value db opcode n.encodedin in
      not (nb == 0) && leb nb 32 && label_symbol_fits v nb n.symbol

  abbrev pub immreg_fits : ImmReg → Bool
  immreg_fits (ImmReg.regsh n sh) = shifter_fits sh
  immreg_fits (ImmReg.imm n) = node_imm_fits n
  immreg_fits (ImmReg.immsh n sh) = node_imm_fits n && shifter_fits sh
  immreg_fits _ = true

pub both : (a b : Bool) → a && b ≡ true → (a ≡ true) × (b ≡ true)
both true true h = (refl, refl)
both true false h = (refl, h)
both false b h = (h, absurd cc)

pub decode_arg_shifter-Defined :
    (db : Database) (s : Internal) (a : Argument) (sh : Shifter)
    → shifter_fits db s.opcode sh ≡ true
    → Defined (decode_arg_shifter db s a sh)
unfolding decode_arg_shifter
decode_arg_shifter-Defined db s a sh h = shift-Defined s _ _ (decode_any db (s.opcode) (sh.shift)) h

-- The shifter after a register or an immediate.
after-Defined :
    (db : Database) (s : Internal) (sh : Shifter)
    → shifter_fits db s.opcode sh ≡ true
    → (t : Internal) (b : Argument) → t.opcode ≡ s.opcode
    → Defined (decode_arg_shifter db t b sh)
after-Defined db s sh h t b e =
    decode_arg_shifter-Defined db t b sh (subst (λ (o : ℕ). shifter_fits db o sh ≡ true) (sym e) h)

-- What follows the register of a write-back.
wback-Defined :
    (encoded wback16 inside : Bool) (x y z : Result)
    → Defined x
    → Defined y
    → Defined z
    → not (encoded && wback16) || inside ≡ true
    → Defined (if encoded then if wback16 then if inside then x else Result.undefined else y else z)
wback-Defined true true true x y z p q r h = p
wback-Defined true true false x y z p q r h = h
wback-Defined true false inside x y z p q r h = q
wback-Defined false wback16 inside x y z p q r h = r

decode_wback-Defined :
    (db : Database) (n : Wreg) (t : Internal) (b : Argument)
    → not (n.wback.has_encodedin && is_wback16 n.wback.symbol)
        || leb register_r0 b.reg_value && leb b.reg_value 32
      ≡ true
    → Defined (decode_wback db n t b)
unfolding decode_wback set_wback
decode_wback-Defined db n t b h =
    wback-Defined (n.wback.has_encodedin) (is_wback16 (n.wback.symbol))
      (leb register_r0 b.reg_value && leb b.reg_value 32) _ _ _ refl refl refl h

module _ (db : Database) (s : Internal) where
  pub decode_arg_imm-Defined :
      (a : Argument) (n : Any)
      → node_imm_fits db s.opcode n ≡ true
      → Defined (decode_arg_imm db s a n)
  unfolding decode_arg_imm
  decode_arg_imm-Defined a n h = decode_imm_any-Defined s _ n (decode_any db (s.opcode) n) h

  pub decode_arg_vreg-Defined : (a : Argument) (n : Any) → Defined (decode_arg_vreg db s a n)
  unfolding decode_arg_vreg
  decode_arg_vreg-Defined a n =
      andthen-Defined s (decode_arg_reg db s a n) _ (decode_arg_reg-Kept db s a n)
        (decode_arg_reg-Defined db s a n) (λ t b e. refl)

  pub decode_arg_ereg-Defined : (a : Argument) (n : Ereg) → Defined (decode_arg_ereg db s a n)
  unfolding decode_arg_ereg
  decode_arg_ereg-Defined a n =
      andthen-Defined s (decode_arg_reg db s a (n.reg)) _ (decode_arg_reg-Kept db s a (n.reg))
        (decode_arg_reg-Defined db s a (n.reg))
        (λ t b e.
          some-cases Defined (value_of (decode_any db (t.opcode) (n.idx))) (λ _. refl)
            (λ _ _. refl))

  pub decode_arg_regsh-Defined :
      (a : Argument) (n : Any) (sh : Shifter)
      → shifter_fits db s.opcode sh ≡ true
      → Defined (decode_arg_regsh db s a n sh)
  unfolding decode_arg_regsh
  decode_arg_regsh-Defined a n sh h =
      andthen-Defined s (decode_arg_reg db s a n) _ (decode_arg_reg-Kept db s a n)
        (decode_arg_reg-Defined db s a n) (after-Defined db s sh h)

  pub decode_arg_wreg-Defined :
      (a : Argument) (n : Wreg)
      → wreg_fits db s.opcode n ≡ true
      → Defined (decode_arg_wreg db s a n)
  unfolding decode_arg_wreg decode_arg_reg set_reg
  decode_arg_wreg-Defined a n h =
      let After = λ (r : Result). Defined (r andthen decode_wback db n) in
      let value = (decode_reg_node db (s.opcode) (n.reg)).0 in
      if-cases After (value == register_pc)
        (λ _. if-cases After (n.reg.nopc) (λ _. refl) (λ _. decode_wback-Defined db n _ _ h))
        (λ _.
          if-cases After (value == register_sp && n.reg.nosp) (λ _. refl)
            (λ _. decode_wback-Defined db n _ _ h))

  plain_label-Defined :
      (a : Argument) (n : Any) (scale nb v : ℕ)
      → leb nb 32 ≡ true
      → Defined (plain_label s a n scale nb v)
  unfolding plain_label
  plain_label-Defined a n scale nb v h =
      let small : leb 64 (nb - 1) ≡ false = ground (arith, h) in
      if-cases Defined (n.signpos)
        (λ _. some-Defined _ _ (sign_extend64-is_some v (nb - 1) small) (λ _. refl)) (λ _. refl)

  label_symbol-Defined :
      (a : Argument) (n : Any) (scale nb v : ℕ) (symbol : Symbol)
      → leb nb 32 ≡ true
      → label_symbol_fits v nb symbol ≡ true
      → Defined (label_symbol s a n scale nb v symbol)
  unfolding label_symbol
  label_symbol-Defined a n scale nb v Symbol.plabel small h = refl
  label_symbol-Defined a n scale nb v Symbol.nlabel small h = refl
  label_symbol-Defined a n scale nb v Symbol.plabela small h =
      some-Defined _ _ (decode_a32_imm-is_some v h) (λ _. refl)
  label_symbol-Defined a n scale nb v Symbol.nlabela small h =
      some-Defined _ _ (decode_a32_imm-is_some v h) (λ _. refl)
  label_symbol-Defined a n scale nb v Symbol.labelj small h =
      let long : ltb nb 3 ≡ false = ground (arith, h) in
      rw long (plain_label-Defined a n scale nb _ small)
  label_symbol-Defined a n scale nb v Symbol.label small h =
      plain_label-Defined a n scale nb v small
  label_symbol-Defined a n scale nb v _ small h = refl

  pub decode_arg_immsh-Defined :
      (a : Argument) (n : Any) (sh : Shifter)
      → node_imm_fits db s.opcode n && shifter_fits db s.opcode sh ≡ true
      → Defined (decode_arg_immsh db s a n sh)
  unfolding decode_arg_immsh
  decode_arg_immsh-Defined a n sh h =
      let (imm, shifter) = both _ _ h in
      andthen-Defined s (decode_arg_imm db s a n) _ (decode_arg_imm-Kept db s a n)
        (decode_arg_imm-Defined a n imm) (after-Defined db s sh shifter)

  pub decode_arg_label-Defined :
      (a : Argument) (n : Any)
      → label_fits db s.opcode n ≡ true
      → Defined (decode_arg_label db s a n)
  unfolding decode_arg_label
  decode_arg_label-Defined a n h =
      let nb = (read_encodedin_value db (s.opcode) (n.encodedin)).1 in
      let some_bits : nb == 0 || leb 33 nb ≡ false = ground (arith, h) in
      let (bits, symbol) = both _ _ h in
      rw some_bits (label_symbol-Defined _ n _ nb _ (n.symbol) (both _ _ bits).1 symbol)
