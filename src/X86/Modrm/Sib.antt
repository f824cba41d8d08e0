-- ===== src/X86/Modrm/Sib.antt =====
-- source/x86/decoder.c: the number of bytes of `decode_sib`.
use amed.Base.{
  ==_iff, Bool-cases, ℕ, ◌+◌, ◌<◌, ◌≤◌, ◌≡◌, inl, inr, refl, sym, subst, ap, arith, if-cases, [],
  ◌∷◌, true, false, some, ◌==◌, field, if◌then◌else◌,
}
use amed.X86.Names.{BytecodeType}
use amed.X86.State.{Internal}
use amed.X86.Fetch.{peek_byte, advance_byte}
use amed.X86.Modrm.{decode_disp, sib_disp_length, set_sib_fields, decode_sib}
use amed.X86.Modrm.Length.{
  Same, unread, Takes, add_bytecode-Takes, decode_disp-Takes, IsDispSize, Takes-trans, after_same,
  exactly, stays,
}

-- The SIB byte, and what follows it.
set_sib_fields-Takes :
    (s : Internal) (sib : ℕ)
    → s.nb < 256
    → s.pc + 1 ≤ s.nb
    → ((set_sib_fields (advance_byte s) sib).pc ≡ s.pc + 1)
      × Same s (set_sib_fields (advance_byte s) sib)
unfolding set_sib_fields advance_byte
set_sib_fields-Takes s sib h k =
    let added = add_bytecode-Takes _ (sib ∷ []) BytecodeType.sib in
    (omega (arith, added.0), unread added.1.same_nb added.1.same_mod added.1.same_address)

-- The size that a SIB byte brings: of base 5, a displacement by `mod`.
abbrev pub sib_size : ℕ → ℕ → ℕ
sib_size modrm_mod sib = 1 + (if field 0 3 sib == 5 then sib_disp_length modrm_mod else 0)

sib_disp_length-IsDispSize :
    (m : ℕ) → (sib_disp_length m == 0) ≡ false → IsDispSize (sib_disp_length m)
sib_disp_length-IsDispSize m e = ground arith

peek_byte-fits : (s : Internal) → s.pc + 1 ≤ s.nb → peek_byte s ≡ some (s.address s.pc)
unfolding peek_byte
peek_byte-fits s k = ground arith

-- The base of the operand does not matter.
base-Same :
    (s : Internal)
    → let t = if s.diagram.modrm_mod == 0 then record s { has_base = false } else s in
      (t.pc ≡ s.pc) × Same s t
base-Same s =
    if-cases (λ (t : Internal). (t.pc ≡ s.pc) × Same s t) (s.diagram.modrm_mod == 0)
      (λ _. (refl, unread refl refl refl)) λ _. (refl, unread refl refl refl)

-- After the fields of a SIB byte with base 5.
sib_disp-Takes :
    (s : Internal)
    → s.nb < 256
    → s.pc + sib_disp_length s.diagram.modrm_mod ≤ s.nb
    → Takes (sib_disp_length s.diagram.modrm_mod) s (
        let s2 = if s.diagram.modrm_mod == 0 then record s { has_base = false } else s in
        if sib_disp_length s.diagram.modrm_mod == 0
        then (s2, true)
        else decode_disp s2 (sib_disp_length s.diagram.modrm_mod))
sib_disp-Takes s h k =
    let n = sib_disp_length s.diagram.modrm_mod in
    let base = base-Same s in
    if-cases (Takes n s) (n == 0)
      (λ e. exactly (sym ((==_iff n 0).0 e)) (after_same base.0 base.1 (stays _)))
      λ e. after_same base.0 base.1 (
        decode_disp-Takes _ (omega (arith, base.1.same_nb)) n
          (sib_disp_length-IsDispSize s.diagram.modrm_mod e)
          (omega (arith, base.0, base.1.same_nb)))

pub decode_sib-Takes :
    (s : Internal)
    → s.nb < 256
    → s.pc + sib_size s.diagram.modrm_mod (s.address s.pc) ≤ s.nb
    → Takes (sib_size s.diagram.modrm_mod (s.address s.pc)) s (decode_sib s)
unfolding decode_sib
decode_sib-Takes s h k =
    let sib = s.address s.pc in
    let s1 = set_sib_fields (advance_byte s) sib in
    let first = set_sib_fields-Takes s sib h (omega arith) in
    let n = sib_disp_length s.diagram.modrm_mod in
    let m = sib_disp_length s1.diagram.modrm_mod in
    let same : m ≡ n = ap sib_disp_length first.1.same_mod in
    rw (peek_byte-fits s (omega arith), decode_sib)
      (Takes-trans 1 first.0 first.1 (elim (Bool-cases (field 0 3 sib == 5)) [
        | inl five ↦
            let fits : s.pc + (1 + n) ≤ s.nb =
              subst (λ b. s.pc + (1 + (if b then n else 0)) ≤ s.nb) five k in
            rw five (
              exactly same (
                sib_disp-Takes s1 (omega (arith, first.1.same_nb))
                  (omega (arith, first.0, first.1.same_nb))))
        | inr other ↦ rw other (stays s1)
      ]))
