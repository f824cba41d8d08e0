-- ===== src/Aarch64/Frame/Memory.antt =====
-- The frame of the memory argument, the lists, and the arguments that name a value.
use amed.Base.{refl, Option, none, some, if-cases, some-cases}
use amed.Aarch64.Database.{Any, Shifter, ImmReg, MemNode, ListNode, Database}
use amed.Aarch64.State.{Argument, Internal, Result}
use amed.Aarch64.Fields.{lookup_tv}
use amed.Aarch64.Arguments.Memory.{
  decode_anynymous_immreg, of_local, finish_mem, set_offset, decode_offset, decode_arg_mem,
}
use amed.Aarch64.Arguments.Enums.{
  decode_arg_enum, decode_arg_invcond, decode_arg_patternsh, decode_arg_sysreg,
}
use amed.Aarch64.Arguments.Lists.{list_bounds, set_list, decode_arg_vlist, decode_arg_elist}
use amed.Aarch64.Frame.{
  Frame-flags, Kept, decoded-Kept, failed-Kept, flags-Kept, andthen-Kept, Kept-trans,
}
use amed.Aarch64.Frame.Registers.{
  decode_arg_reg-Kept, decode_arg_shifter-Kept, decode_arg_regsh-Kept, decode_arg_vreg-Kept,
  decode_arg_vregsh-Kept, decode_arg_ereg-Kept,
}
use amed.Aarch64.Frame.Immediates.{IsExtensible, decode_arg_imm-Kept, decode_arg_immsh-Kept}

-- The immediates of a base or an offset that are extended by their sign have bits.
pub IsOffset : Database → ImmReg → Type 0
IsOffset db (ImmReg.imm n) = IsExtensible db n
IsOffset db (ImmReg.immsh n shifter) = IsExtensible db n
IsOffset db _ = Unit {0}

pub decode_anynymous_immreg-Kept :
    (db : Database) (s : Internal) (a : Argument) (n : ImmReg)
    → IsOffset db n
    → Kept s (decode_anynymous_immreg db s a n)
unfolding decode_anynymous_immreg IsOffset
decode_anynymous_immreg-Kept db s a (ImmReg.reg n) h = decode_arg_reg-Kept db s a n
decode_anynymous_immreg-Kept db s a (ImmReg.ereg n) h = decode_arg_ereg-Kept db s a n
decode_anynymous_immreg-Kept db s a (ImmReg.vreg n) h = decode_arg_vreg-Kept db s a n
decode_anynymous_immreg-Kept db s a (ImmReg.regsh n shifter) h =
    decode_arg_regsh-Kept db s a n shifter
decode_anynymous_immreg-Kept db s a (ImmReg.vregsh n shifter) h =
    decode_arg_vregsh-Kept db s a n shifter
decode_anynymous_immreg-Kept db s a (ImmReg.imm n) h = decode_arg_imm-Kept db s a n h
decode_anynymous_immreg-Kept db s a (ImmReg.immsh n shifter) h =
    decode_arg_immsh-Kept db s a n h shifter
decode_anynymous_immreg-Kept db s a ImmReg.other h = failed-Kept s a

abbrev pub IsOffsetOption : Database → Option ImmReg → Type 0
IsOffsetOption db none = Unit {0}
IsOffsetOption db (some n) = IsOffset db n

finish_mem-Kept : (s : Internal) (a : Argument) (n : MemNode) → Kept s (finish_mem s a n)
unfolding finish_mem
finish_mem-Kept s a n = flags-Kept s _ _ (Frame-flags s _ refl refl refl)

of_local-Kept :
    (s : Internal) (a : Argument) (r : Result) (k : Internal → Argument → Result)
    → Kept s r
    → ((t : Internal) (local : Argument) → Kept t (k t local))
    → Kept s (of_local a r k)
unfolding Kept
of_local-Kept s a (Result.decoded t local) k h f = Kept-trans s t (k t local) h (f t local)
of_local-Kept s a (Result.failed t local) k h f = h
of_local-Kept s a Result.undefined k h f = h

module _ (db : Database) where
  -- The offset as a value of its own, to split on.
  offset_lem :
      (n : MemNode) (a : Argument) (t : Internal) (local : Argument) (o : Option ImmReg)
      → IsOffsetOption db o
      → Kept t (elim o [
        | none ↦ finish_mem t a n
        | some offset ↦
            of_local a
              (decode_anynymous_immreg db t local offset)
              λ u arg. finish_mem u (set_offset a arg) n
      ])
  offset_lem n a t local none h = finish_mem-Kept t a n
  offset_lem n a t local (some offset) h =
      of_local-Kept t a _ _ (decode_anynymous_immreg-Kept db t local offset h)
        (λ u arg. finish_mem-Kept u _ n)

  decode_offset-Kept :
      (n : MemNode) (a : Argument) (t : Internal) (local : Argument)
      → IsOffsetOption db (n.regoff)
      → Kept t (decode_offset db n a t local)
  unfolding decode_offset
  decode_offset-Kept n a t local h = offset_lem n a t local (n.regoff) h

  pub decode_arg_mem-Kept :
      (s : Internal) (a : Argument) (n : MemNode)
      → IsOffset db (n.base)
      → IsOffsetOption db (n.regoff)
      → Kept s (decode_arg_mem db s a n)
  unfolding decode_arg_mem
  decode_arg_mem-Kept s a n base offset =
      of_local-Kept s _ _ _ (decode_anynymous_immreg-Kept db s _ (n.base) base)
        (λ t local. decode_offset-Kept n _ t local offset)

  set_list-Kept : (n : ListNode) (t : Internal) (b : Argument) → Kept t (set_list db n t b)
  unfolding set_list
  set_list-Kept n t b =
      some-cases (Kept t) (list_bounds ((db.reginfo (b.reg_value)).kind)) (λ _. failed-Kept t _)
        (λ _ _. decoded-Kept t _)

  pub decode_arg_vlist-Kept :
      (s : Internal) (a : Argument) (n : ListNode)
      → IsOffset db (n.base)
      → Kept s (decode_arg_vlist db s a n)
  unfolding decode_arg_vlist
  decode_arg_vlist-Kept s a n h =
      andthen-Kept s (decode_anynymous_immreg db s a (n.base)) _
        (decode_anynymous_immreg-Kept db s a (n.base) h) (λ t b. set_list-Kept n t b)

  pub decode_arg_elist-Kept :
      (s : Internal) (a : Argument) (n : ListNode)
      → IsOffset db (n.base)
      → Kept s (decode_arg_elist db s a n)
  unfolding decode_arg_elist
  decode_arg_elist-Kept s a n h =
      andthen-Kept s (decode_arg_vlist db s a n) _ (decode_arg_vlist-Kept s a n h)
        (λ t b. decoded-Kept t _)

  pub decode_arg_enum-Kept :
      (s : Internal) (a : Argument) (n : Any) → Kept s (decode_arg_enum db s a n)
  unfolding decode_arg_enum
  decode_arg_enum-Kept s a n =
      if-cases (Kept s) (n.has_encodedin)
        (λ _.
          some-cases (Kept s) (n.table) (λ _. decoded-Kept s _)
            (λ items _.
              some-cases (Kept s) (lookup_tv items _) (λ _. failed-Kept s _)
                (λ _ _. decoded-Kept s _)))
        (λ _. decoded-Kept s _)

  pub decode_arg_patternsh-Kept :
      (s : Internal) (a : Argument) (n : Any) (sh : Shifter)
      → Kept s (decode_arg_patternsh db s a n sh)
  unfolding decode_arg_patternsh
  decode_arg_patternsh-Kept s a n sh =
      andthen-Kept s (decode_arg_enum db s a n) _ (decode_arg_enum-Kept s a n)
        (λ t b. decode_arg_shifter-Kept db t b sh)

  pub decode_arg_invcond-Kept :
      (s : Internal) (a : Argument) (n : Any) → Kept s (decode_arg_invcond db s a n)
  unfolding decode_arg_invcond
  decode_arg_invcond-Kept s a n = decoded-Kept s _

  pub decode_arg_sysreg-Kept :
      (s : Internal) (a : Argument) (n : Any) → Kept s (decode_arg_sysreg s a n)
  unfolding decode_arg_sysreg
  decode_arg_sysreg-Kept s a n = decoded-Kept s _
