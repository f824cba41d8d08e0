-- ===== src/X86/Moves/Modrm.antt =====
-- source/x86/decoder.c: the moves of `decode_disp`, `decode_sib` and `decode_modrm`.
use amed.Base.{
  ℕ, ◌+◌, ◌<◌, ◌≤◌, ◌≡◌, refl, arith, some-cases, if-cases, List, ltb, true, false, not, ◌&&◌, ◌==◌,
  length, field, ==_iff, if◌then◌else◌,
}
use amed.Base.Int.{ℤ}
use amed.X86.Names.{BytecodeType}
use amed.X86.State.{Internal}
use amed.X86.Fetch.{peek_byte, advance_byte, bytes_from}
use amed.X86.Modrm.{
  decode_disp8, finish_disp, decode_disp, sib_disp_length, set_sib_fields, decode_sib, has_sib_byte,
  modrm_disp_size, start_modrm, decode_modrm,
}
use amed.X86.Moves.{Moves, Moves-trans, Quiet, Quiet-Moves, quiet, quietly, after, Kept, unmoved}
use amed.X86.Moves.Steps.{advance-Moves, peek_byte-fits, length-bytes_from, taken_byte-Moves}

decode_disp8-Quiet : (s : Internal) (disp : ℤ) → Quiet s (decode_disp8 s disp)
unfolding decode_disp8
decode_disp8-Quiet s disp = ground arith

module _ {s t : Internal} (n : ℕ) (bytes : List ℕ) where
  finish_disp-Kept :
      s.nb < 256 → s.pc + n ≤ s.nb → length bytes ≡ n → Quiet s t → Kept s (finish_disp t n bytes)
  unfolding finish_disp
  finish_disp-Kept h k l q = record {
    moves =
        advance-Moves n bytes BytecodeType.disp h k l
          (record { same_pc = q.same_pc; same_nb = q.same_nb; same_bytecodes = q.same_bytecodes });
  }

fits_above :
    (s : Internal) (n m : ℕ) → ltb s.nb (s.pc + n) ≡ false → (n == m) ≡ true → s.pc + m ≤ s.nb
fits_above s n m f e = ground arith

length-bytes_read :
    (s : Internal) (n m : ℕ) → (n == m) ≡ true → length (bytes_from s.address s.pc n) ≡ m
length-bytes_read s n m e = omega (arith, length-bytes_from s.address s.pc n, (==_iff n m).0 e)

pub decode_disp-Kept : (s : Internal) (n : ℕ) → s.nb < 256 → Kept s (decode_disp s n)
unfolding decode_disp
decode_disp-Kept s n h =
    if-cases (Kept s) (ltb s.nb (s.pc + n)) (λ _. unmoved s)
      λ f.
        if-cases (Kept s) (n == 1)
          (λ e.
            finish_disp-Kept 1 _ h (fits_above s n 1 f e) (length-bytes_read s n 1 e)
              (decode_disp8-Quiet s _))
          λ _.
            if-cases (Kept s) (n == 2)
              (λ e.
                finish_disp-Kept 2 _ h (fits_above s n 2 f e) (length-bytes_read s n 2 e)
                  (quiet refl refl refl))
              λ _.
                if-cases (Kept s) (n == 4)
                  (λ e.
                    finish_disp-Kept 4 _ h (fits_above s n 4 f e) (length-bytes_read s n 4 e)
                      (quiet refl refl refl))
                  λ _. unmoved s

set_sib_fields-Moves :
    (s : Internal) (sib : ℕ)
    → s.nb < 256
    → s.pc + 1 ≤ s.nb
    → Moves s (set_sib_fields (advance_byte s) sib)
unfolding set_sib_fields advance_byte
set_sib_fields-Moves s sib h k = taken_byte-Moves _ sib BytecodeType.sib h k refl refl refl

sib_base-Quiet :
    (s : Internal) → Quiet s (if s.diagram.modrm_mod == 0 then record s { has_base = false } else s)
sib_base-Quiet s = ground arith

module _ (s : Internal) (h : s.nb < 256) where
  pub decode_sib-Kept : Kept s (decode_sib s)
  unfolding decode_sib
  decode_sib-Kept =
      some-cases (Kept s) (peek_byte s) (λ _. unmoved s)
        λ sib e.
          let s1 = set_sib_fields (advance_byte s) sib in
          let m = set_sib_fields-Moves s sib h (peek_byte-fits s sib e).0 in
          let s2 = if s1.diagram.modrm_mod == 0 then record s1 { has_base = false } else s1 in
          let q = sib_base-Quiet s1 in
          if-cases (Kept s) (field 0 3 sib == 5)
            (λ _.
              if-cases (Kept s) (sib_disp_length s1.diagram.modrm_mod == 0)
                (λ _. record { moves = Moves-trans m (Quiet-Moves q) })
                λ _. after (Moves-trans m (Quiet-Moves q)) (
                  decode_disp-Kept s2 (sib_disp_length s1.diagram.modrm_mod)
                    (omega (arith, q.same_nb, m.same_nb))))
            λ _. record { moves = m }

start_modrm-Moves : (s : Internal) → s.nb < 256 → s.pc + 1 ≤ s.nb → Moves s (start_modrm s)
unfolding start_modrm advance_byte
start_modrm-Moves s h k =
    Moves-trans (taken_byte-Moves (advance_byte s) _ BytecodeType.modrm h k refl refl refl)
      (Quiet-Moves (quiet refl refl refl))

-- After the ModRM byte.
pub operands-Kept :
    (s : Internal) → (start_modrm s).nb < 256 → Kept (start_modrm s) (decode_modrm s)
unfolding decode_modrm
operands-Kept s h =
    let modrm_mod = s.diagram.modrm_mod in
    let rm = s.diagram.rm in
    let s1 = start_modrm s in
    let r2 = if has_sib_byte modrm_mod rm then decode_sib s1 else (s1, true) in
    let m2 : Kept s1 r2 =
      if-cases (Kept s1) (has_sib_byte modrm_mod rm) (λ _. decode_sib-Kept s1 h) λ _. unmoved s1 in
    let size = modrm_disp_size modrm_mod rm in
    let more = r2.1 && not (size == 0) in
    let r3 = if more then decode_disp r2.0 size else r2 in
    let m3 : Kept s1 r3 = after m2.moves (
      if-cases (Kept r2.0) more (λ _. decode_disp-Kept r2.0 size (omega (arith, m2.moves.same_nb)))
        λ _. unmoved r2.0) in
    if-cases (Kept s1) r3.1 (λ _. after m3.moves (quietly (quiet refl refl refl)))
      λ _. record { moves = m3.moves }

-- For every state with at most 255 bytes, one of which is left for ModRM: whatever `decode_modrm`
-- finds, it has moved on within the bytes, and recorded what it read.
pub decode_modrm-Kept : (s : Internal) → s.nb < 256 → s.pc + 1 ≤ s.nb → Kept s (decode_modrm s)
decode_modrm-Kept s h k =
    let m = start_modrm-Moves s h k in after m (operands-Kept s (omega (arith, m.same_nb)))
