-- ===== src/Aarch32/Frame/Memory.antt =====
-- The memory arguments of source/aarch32/decoder.c, and what they leave as it was.
use amed.Base.{ℕ, refl, ◌≡◌, some-cases}
use amed.Aarch32.Names.{MemAccess}
use amed.Aarch32.Database.{ImmReg, MemNode, Database}
use amed.Aarch32.State.{Argument, Insn, Internal}
use amed.Aarch32.Arguments.Memory.{
  decode_anynymous_immreg, decode_mem_access, value_or, finish_mem, decode_align, decode_offset,
  decode_arg_mem,
}
use amed.Aarch32.Frame.{Kept, decoded-Kept, failed-Kept, andthen-Kept}
use amed.Aarch32.Frame.Registers.{
  decode_arg_reg-Kept, decode_arg_vreg-Kept, decode_arg_ereg-Kept, decode_arg_regsh-Kept,
}
use amed.Aarch32.Frame.Immediates.{decode_arg_imm-Kept, decode_arg_immsh-Kept}

decode_mem_access-length :
    (access : MemAccess) (insn : Insn) → (decode_mem_access access insn).length ≡ insn.length
unfolding decode_mem_access
decode_mem_access-length MemAccess.none insn = refl
decode_mem_access-length _ insn = refl

module _ (db : Database) where
  pub decode_anynymous_immreg-Kept :
      (s : Internal) (a : Argument) (n : ImmReg) → Kept s (decode_anynymous_immreg db s a n)
  unfolding decode_anynymous_immreg
  decode_anynymous_immreg-Kept s a (ImmReg.reg n) = decode_arg_reg-Kept db s a n
  decode_anynymous_immreg-Kept s a (ImmReg.vreg n) = decode_arg_vreg-Kept db s a n
  decode_anynymous_immreg-Kept s a (ImmReg.ereg n) = decode_arg_ereg-Kept db s a n
  decode_anynymous_immreg-Kept s a (ImmReg.regsh n sh) = decode_arg_regsh-Kept db s a n sh
  decode_anynymous_immreg-Kept s a (ImmReg.imm n) = decode_arg_imm-Kept db s a n
  decode_anynymous_immreg-Kept s a (ImmReg.immsh n sh) = decode_arg_immsh-Kept db s a n sh
  decode_anynymous_immreg-Kept s a ImmReg.other = failed-Kept s a

  finish_mem-Kept :
      (s : Internal) (a : Argument) (n : MemNode) (add align : ℕ)
      → Kept s (finish_mem s a n add align)
  unfolding finish_mem
  finish_mem-Kept s a n add align =
      decoded-Kept s _ _ refl
        (rw (decode_mem_access-length (n.stacc) _, decode_mem_access-length (n.ldacc) _)) refl refl

  decode_align-Kept :
      (n : MemNode) (add : ℕ) (s : Internal) (a : Argument) → Kept s (decode_align db n add s a)
  unfolding decode_align
  decode_align-Kept n add s a =
      some-cases (Kept s) (value_or db (s.opcode) 0 (n.align)) (λ _. failed-Kept s a)
        (λ align _. finish_mem-Kept s a n add align)

  decode_offset-Kept : (n : MemNode) (s : Internal) (a : Argument) → Kept s (decode_offset db n s a)
  unfolding decode_offset
  decode_offset-Kept n s a =
      some-cases (Kept s) (n.regoff) (λ _. decode_align-Kept n 1 s a)
        (λ offset _.
          some-cases (Kept s) (value_or db (s.opcode) 1 (n.add)) (λ _. failed-Kept s a)
            (λ add _.
              andthen-Kept s (decode_anynymous_immreg db s a offset) _
                (decode_anynymous_immreg-Kept s a offset) (λ t b. decode_align-Kept n add t _)))

  pub decode_arg_mem-Kept :
      (s : Internal) (a : Argument) (n : MemNode) → Kept s (decode_arg_mem db s a n)
  unfolding decode_arg_mem
  decode_arg_mem-Kept s a n =
      andthen-Kept s (decode_anynymous_immreg db s _ (n.base)) _
        (decode_anynymous_immreg-Kept s _ (n.base)) (λ t b. decode_offset-Kept n t _)
