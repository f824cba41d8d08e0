-- ===== src/X86/Modrm/Operand.antt =====
-- source/x86/decoder.c: the number of bytes of `decode_modrm`, and the architecture's tables.
use amed.Base.{
  ==_iff, Bool-cases, ℕ, ◌+◌, ◌*◌, ◌%◌, ◌<◌, ◌≤◌, ◌≡◌, ◌∙◌, inl, inr, refl, sym, ap, arith,
  if-cases, [], ◌∷◌, Bool, true, false, not, ◌&&◌, ◌||◌, ◌==◌, if◌then◌else◌,
}
use amed.X86.Names.{BytecodeType}
use amed.X86.State.{Internal}
use amed.X86.Fetch.{advance_byte}
use amed.X86.Modrm.{
  decode_disp, decode_sib, has_sib_byte, modrm_disp_size, start_modrm, decode_modrm,
}
use amed.X86.Modrm.Length.{
  Same, unread, Takes, add_bytecode-Takes, decode_disp-Takes, IsDispSize, Takes-trans, exactly,
  stays,
}
use amed.X86.Modrm.Sib.{sib_size, decode_sib-Takes}

-- The bytes from ModRM on, by the architecture's tables for 32 and 64-bit addresses, which the
-- source uses for 16-bit addresses too: ModRM, SIB where `rm` is 4 in memory, and a displacement
-- of 4 bytes without a base, and of 1 or 4 bytes for `mod` 1 and 2.
unfoldable pub operand_length : ℕ → ℕ → ℕ → ℕ
operand_length modrm_mod rm sib =
    let has_sib = not (modrm_mod == 3) && rm == 4 in
    let no_base = modrm_mod == 0 && (rm == 5 || rm == 4 && sib % 8 == 5) in
    1
    + (if has_sib then 1 else 0)
    + (if no_base || modrm_mod == 2 then 4 else if modrm_mod == 1 then 1 else 0)

-- The bytes that are taken twice: the displacement of `mod` 1 and 2 where the SIB byte has base 5.
unfoldable pub repeated_length : ℕ → ℕ → ℕ → ℕ
repeated_length modrm_mod rm sib =
    if rm == 4 && sib % 8 == 5
    then (if modrm_mod == 1 then 1 else if modrm_mod == 2 then 4 else 0)
    else 0

-- The same by the parts of the source.
abbrev taken_length : ℕ → ℕ → ℕ → ℕ
taken_length modrm_mod rm sib =
    1
    + ((if has_sib_byte modrm_mod rm then sib_size modrm_mod sib else 0)
        + modrm_disp_size modrm_mod rm)

taken_length_lem :
    (modrm_mod rm sib : ℕ)
    → modrm_mod < 4
    → taken_length modrm_mod rm sib
      ≡ operand_length modrm_mod rm sib + repeated_length modrm_mod rm sib
unfolding operand_length repeated_length
taken_length_lem modrm_mod rm sib h = ground arith

start_modrm-Takes :
    (s : Internal)
    → s.nb < 256
    → s.pc + 1 ≤ s.nb
    → ((start_modrm s).pc ≡ s.pc + 1) × Same s (start_modrm s)
unfolding start_modrm advance_byte
start_modrm-Takes s h k =
    let d = s.diagram in
    let added =
      add_bytecode-Takes (advance_byte s) ((d.rm + d.reg * 8 + d.modrm_mod * 64) ∷ [])
        BytecodeType.modrm in
    (omega (arith, added.0), unread added.1.same_nb added.1.same_mod added.1.same_address)

modrm_disp_size-IsDispSize :
    (m rm : ℕ) → (modrm_disp_size m rm == 0) ≡ false → IsDispSize (modrm_disp_size m rm)
modrm_disp_size-IsDispSize m rm e = ground arith

-- The SIB byte, where there is one.
module _ (s : Internal) (m sib : ℕ) (same_mod : s.diagram.modrm_mod ≡ m) where
  sib_part-Takes :
      (b : Bool)
      → s.address s.pc ≡ sib
      → s.nb < 256
      → s.pc + (if b then sib_size m sib else 0) ≤ s.nb
      → Takes (if b then sib_size m sib else 0) s (if b then decode_sib s else (s, true))
  sib_part-Takes false byte h k = stays s
  sib_part-Takes true byte h k =
      let size : sib_size s.diagram.modrm_mod (s.address s.pc) ≡ sib_size m sib =
        rw same_mod (rw byte refl) in
      exactly size (decode_sib-Takes s h (omega arith))

-- The displacement by `mod` and `rm`, after a SIB byte that was read.
disp_part-Takes :
    (s : Internal) (m rm : ℕ) (ok : Bool)
    → ok ≡ true
    → s.nb < 256
    → s.pc + modrm_disp_size m rm ≤ s.nb
    → Takes (modrm_disp_size m rm) s (
        if ok && not (modrm_disp_size m rm == 0)
        then decode_disp s (modrm_disp_size m rm)
        else (s, ok))
disp_part-Takes s m rm ok e h k =
    let n = modrm_disp_size m rm in
    rw e (elim (Bool-cases (n == 0)) [
      | inl z ↦ rw z (exactly (sym ((==_iff n 0).0 z)) (stays s))
      | inr nz ↦ rw nz (decode_disp-Takes s h n (modrm_disp_size-IsDispSize m rm nz) k)
    ])

module _ (s : Internal) (h : s.nb < 256) (small : s.diagram.modrm_mod < 4) where
  parts-Takes :
      s.pc + taken_length s.diagram.modrm_mod s.diagram.rm (s.address (s.pc + 1)) ≤ s.nb
      → Takes
          (taken_length s.diagram.modrm_mod s.diagram.rm (s.address (s.pc + 1)))
          s
          (decode_modrm s)
  unfolding decode_modrm
  parts-Takes k =
      let m = s.diagram.modrm_mod in
      let rm = s.diagram.rm in
      let s1 = start_modrm s in
      let first = start_modrm-Takes s h (omega arith) in
      let byte : s1.address s1.pc ≡ s.address (s.pc + 1) =
        ap (λ (f : ℕ → ℕ). f s1.pc) first.1.same_address ∙ ap s.address first.0 in
      let b = has_sib_byte m rm in
      let r2 = if b then decode_sib s1 else (s1, true) in
      let sib_part =
        sib_part-Takes s1 m (s.address (s.pc + 1)) first.1.same_mod b byte
          (omega (arith, first.1.same_nb)) (omega (arith, first.0, first.1.same_nb)) in
      let size = modrm_disp_size m rm in
      let r3 = if r2.1 && not (size == 0) then decode_disp r2.0 size else r2 in
      let disp_part =
        disp_part-Takes r2.0 m rm r2.1 sib_part.succeeds
          (omega (arith, first.1.same_nb, sib_part.same.same_nb))
          (omega (arith, first.0, first.1.same_nb, sib_part.takes, sib_part.same.same_nb)) in
      let both = Takes-trans 1 first.0 first.1 (
        Takes-trans (if b then sib_size m (s.address (s.pc + 1)) else 0) sib_part.takes
          sib_part.same disp_part) in
      if-cases (Takes (taken_length m rm (s.address (s.pc + 1))) s) r3.1
        (λ _. record {
          succeeds = refl;
          takes = both.takes;
          same = unread both.same.same_nb both.same.same_mod both.same.same_address;
        })
        λ no. absurd (ground (arith, both.succeeds))

-- For every state with at most 255 bytes and `mod` below 4, with the bytes of the operand left:
-- `decode_modrm` succeeds, and takes as many bytes as the tables for 32 and 64-bit addresses say,
-- whatever the address size, and, of a SIB byte with base 5 and `mod` 1 or 2, the displacement
-- once more.
pub decode_modrm-operand_length :
    (s : Internal)
    → s.nb < 256
    → s.diagram.modrm_mod < 4
    → s.pc
        + (operand_length s.diagram.modrm_mod s.diagram.rm (s.address (s.pc + 1))
            + repeated_length s.diagram.modrm_mod s.diagram.rm (s.address (s.pc + 1)))
      ≤ s.nb
    → ((decode_modrm s).1 ≡ true)
      × ((decode_modrm s).0.pc
          ≡ s.pc
            + (operand_length s.diagram.modrm_mod s.diagram.rm (s.address (s.pc + 1))
                + repeated_length s.diagram.modrm_mod s.diagram.rm (s.address (s.pc + 1))))
decode_modrm-operand_length s h small k =
    let e = taken_length_lem s.diagram.modrm_mod s.diagram.rm (s.address (s.pc + 1)) small in
    let both = parts-Takes s h small (omega (arith, e)) in
    (both.succeeds, both.takes ∙ ap (λ (t : ℕ). s.pc + t) e)
