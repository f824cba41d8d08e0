-- ===== src/Aarch64/Frame/Registers.antt =====
-- The frame of the registers and their shifters.
use amed.Base.{refl, if-cases, some-cases}
use amed.Aarch64.Database.{Any, Ereg, Shifter, Database}
use amed.Aarch64.State.{Argument, Internal}
use amed.Aarch64.Fields.{lookup_tv, decode_any, value_of}
use amed.Aarch64.Arguments.Registers.{decode_arg_reg}
use amed.Aarch64.Arguments.Shifters.{
  set_amount, decode_arg_shifter, decode_arg_regsh, decode_arg_vreg, decode_arg_vregsh,
  decode_arg_ereg, decode_arg_preg,
}
use amed.Aarch64.Frame.{Frame-flags, Kept, decoded-Kept, failed-Kept, flags-Kept, andthen-Kept}

module _ (db : Database) where
  pub decode_arg_reg-Kept :
      (s : Internal) (a : Argument) (n : Any) → Kept s (decode_arg_reg db s a n)
  unfolding decode_arg_reg
  decode_arg_reg-Kept s a n = flags-Kept s _ _ (Frame-flags s _ refl refl refl)

  pub decode_arg_shifter-Kept :
      (s : Internal) (a : Argument) (n : Shifter) → Kept s (decode_arg_shifter db s a n)
  unfolding decode_arg_shifter
  decode_arg_shifter-Kept s a n =
      if-cases (Kept s) (n.has_encodedin)
        (λ _.
          some-cases (Kept s) (lookup_tv (n.table) _) (λ _. failed-Kept s _)
            (λ _ _. decoded-Kept s _))
        (λ _.
          some-cases (Kept s) (value_of (decode_any db (s.opcode) (n.shift))) (λ _. failed-Kept s _)
            (λ shift _.
              some-cases (Kept s) (set_amount db (s.opcode) (n.amount) shift _)
                (λ _. failed-Kept s _) (λ _ _. decoded-Kept s _)))

  pub decode_arg_regsh-Kept :
      (s : Internal) (a : Argument) (n : Any) (sh : Shifter) → Kept s (decode_arg_regsh db s a n sh)
  unfolding decode_arg_regsh
  decode_arg_regsh-Kept s a n sh =
      andthen-Kept s (decode_arg_reg db s a n) _ (decode_arg_reg-Kept s a n)
        (λ t b. decode_arg_shifter-Kept t b sh)

  pub decode_arg_vreg-Kept :
      (s : Internal) (a : Argument) (n : Ereg) → Kept s (decode_arg_vreg db s a n)
  unfolding decode_arg_vreg
  decode_arg_vreg-Kept s a n =
      andthen-Kept s (decode_arg_reg db s a (n.reg)) _ (decode_arg_reg-Kept s a (n.reg))
        (λ t b. flags-Kept t _ _ (Frame-flags t _ refl refl refl))

  pub decode_arg_vregsh-Kept :
      (s : Internal) (a : Argument) (n : Ereg) (sh : Shifter)
      → Kept s (decode_arg_vregsh db s a n sh)
  unfolding decode_arg_vregsh
  decode_arg_vregsh-Kept s a n sh =
      andthen-Kept s (decode_arg_vreg db s a n) _ (decode_arg_vreg-Kept s a n)
        (λ t b. decode_arg_shifter-Kept t b sh)

  pub decode_arg_ereg-Kept :
      (s : Internal) (a : Argument) (n : Ereg) → Kept s (decode_arg_ereg db s a n)
  unfolding decode_arg_ereg
  decode_arg_ereg-Kept s a n =
      andthen-Kept s (decode_arg_reg db s a (n.reg)) _ (decode_arg_reg-Kept s a (n.reg)) (λ t b.
        some-cases (Kept t) (value_of (decode_any db (t.opcode) (n.idx))) (λ _. failed-Kept t _)
          (λ _ _. decoded-Kept t _))

  pub decode_arg_preg-Kept :
      (s : Internal) (a : Argument) (n : Any) → Kept s (decode_arg_preg db s a n)
  unfolding decode_arg_preg
  decode_arg_preg-Kept s a n =
      andthen-Kept s (decode_arg_reg db s a n) _ (decode_arg_reg-Kept s a n)
        (λ t b. flags-Kept t _ _ (Frame-flags t _ refl refl refl))
