-- ===== src/Aarch32/Frame/Registers.antt =====
-- The registers and the shifters of source/aarch32/decoder.c, and what they leave as it was.
use amed.Base.{ℕ, refl, Bool, ◌&&◌, leb, ◌==◌, if-cases, some-cases}
use amed.Aarch32.Names.{register_pc, register_sp, register_r0}
use amed.Aarch32.Database.{Any, Ereg, Wreg, Shifter, Database}
use amed.Aarch32.State.{Argument, Internal, Result}
use amed.Aarch32.Fields.{decode_any, value_of}
use amed.Aarch32.Arguments.Registers.{
  decode_reg_node, decode_arg_reg, decode_arg_vreg, decode_arg_ereg, set_wback, decode_arg_wreg,
  decode_wback, is_wback16,
}
use amed.Aarch32.Arguments.Shifters.{Shift, shift_of, decode_arg_shifter, decode_arg_regsh}
use amed.Aarch32.Frame.{
  Kept, decoded-Kept, read-Kept, failed-Kept, stopped-Kept, undefined-Kept, andthen-Kept,
}

shift-Kept :
    (s : Internal) (a : Argument) (k : ℕ → Argument) (shift : Shift)
    → Kept s (elim shift [
      | Shift.failed ↦ Result.failed s a
      | Shift.undefined ↦ Result.undefined
      | Shift.shift kind ↦ Result.decoded s (k kind)
    ])
shift-Kept s a k Shift.failed = failed-Kept s a
shift-Kept s a k Shift.undefined = undefined-Kept s
shift-Kept s a k (Shift.shift kind) = read-Kept s (k kind)

module _ (db : Database) where
  pub decode_arg_reg-Kept :
      (s : Internal) (a : Argument) (n : Any) → Kept s (decode_arg_reg db s a n)
  unfolding decode_arg_reg
  decode_arg_reg-Kept s a n =
      if-cases (Kept s) ((decode_reg_node db (s.opcode) n).0 == register_pc)
        (λ _.
          if-cases (Kept s) (n.nopc) (λ _. stopped-Kept s _ _ refl refl refl refl)
            (λ _. decoded-Kept s _ _ refl refl refl refl))
        (λ _.
          if-cases (Kept s) ((decode_reg_node db (s.opcode) n).0 == register_sp && n.nosp)
            (λ _. stopped-Kept s _ _ refl refl refl refl)
            (λ _. decoded-Kept s _ _ refl refl refl refl))

  pub decode_arg_vreg-Kept :
      (s : Internal) (a : Argument) (n : Any) → Kept s (decode_arg_vreg db s a n)
  unfolding decode_arg_vreg
  decode_arg_vreg-Kept s a n =
      andthen-Kept s (decode_arg_reg db s a n) _ (decode_arg_reg-Kept s a n)
        (λ t b. decoded-Kept t _ _ refl refl refl refl)

  pub decode_arg_ereg-Kept :
      (s : Internal) (a : Argument) (n : Ereg) → Kept s (decode_arg_ereg db s a n)
  unfolding decode_arg_ereg
  decode_arg_ereg-Kept s a n =
      andthen-Kept s (decode_arg_reg db s a (n.reg)) _ (decode_arg_reg-Kept s a (n.reg)) (λ t b.
        some-cases (Kept t) (value_of (decode_any db (t.opcode) (n.idx))) (λ _. failed-Kept t _)
          (λ _ _. read-Kept t _))

  set_wback-Kept : (s : Internal) (a : Argument) (b : Bool) → Kept s (set_wback s a b)
  unfolding set_wback
  set_wback-Kept s a b = decoded-Kept s _ _ refl refl refl refl

  pub decode_arg_wreg-Kept :
      (s : Internal) (a : Argument) (n : Wreg) → Kept s (decode_arg_wreg db s a n)
  unfolding decode_arg_wreg decode_wback
  decode_arg_wreg-Kept s a n =
      andthen-Kept s (decode_arg_reg db s a (n.reg)) _ (decode_arg_reg-Kept s a (n.reg)) (λ t b.
        if-cases (Kept t) (n.wback.has_encodedin)
          (λ _.
            if-cases (Kept t) (is_wback16 (n.wback.symbol))
              (λ _.
                if-cases (Kept t) (leb register_r0 b.reg_value && leb b.reg_value 32)
                  (λ _. set_wback-Kept t b _) (λ _. undefined-Kept t))
              (λ _. set_wback-Kept t b _))
          (λ _. set_wback-Kept t b _))

  pub decode_arg_shifter-Kept :
      (s : Internal) (a : Argument) (n : Shifter) → Kept s (decode_arg_shifter db s a n)
  unfolding decode_arg_shifter
  decode_arg_shifter-Kept s a n = shift-Kept s _ _ (shift_of (decode_any db (s.opcode) (n.shift)))

  pub decode_arg_regsh-Kept :
      (s : Internal) (a : Argument) (n : Any) (sh : Shifter) → Kept s (decode_arg_regsh db s a n sh)
  unfolding decode_arg_regsh
  decode_arg_regsh-Kept s a n sh =
      andthen-Kept s (decode_arg_reg db s a n) _ (decode_arg_reg-Kept s a n)
        (λ t b. decode_arg_shifter-Kept t b sh)
