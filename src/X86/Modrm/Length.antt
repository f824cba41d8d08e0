-- ===== src/X86/Modrm/Length.antt =====
-- source/x86/decoder.c: the number of bytes of `decode_disp`.
use amed.Base.{
  ℕ, ◌+◌, ◌<◌, ◌≤◌, ◌≡◌, ◌⊎◌, ◌∙◌, inl, inr, refl, sym, subst, arith, if-cases, List, ltb, leb,
  Bool, true, false, ◌==◌, length, u8,
}
use amed.Base.Int.{ℤ, signed, is_zero}
use amed.X86.Names.{BytecodeType, encoding_evex, encoding_mvex}
use amed.X86.State.{Internal}
use amed.X86.Fetch.{advance, add_bytecode, bytes_from, le_value}
use amed.X86.Modrm.{decode_disp8, finish_disp, decode_disp}

-- What an operation leaves of a state that it reads on.
pub record Same (s t : Internal) : Type 0 where
  pub same_nb : t.nb ≡ s.nb
  pub same_mod : t.diagram.modrm_mod ≡ s.diagram.modrm_mod
  pub same_address : t.address ≡ s.address

pub unread :
    {s t : Internal}
    → t.nb ≡ s.nb
    → t.diagram.modrm_mod ≡ s.diagram.modrm_mod
    → t.address ≡ s.address
    → Same s t
unread n m a = record { same_nb = n; same_mod = m; same_address = a }

pub Same-trans : {s t u : Internal} → Same s t → Same t u → Same s u
Same-trans a b = record {
  same_nb = b.same_nb ∙ a.same_nb;
  same_mod = b.same_mod ∙ a.same_mod;
  same_address = b.same_address ∙ a.same_address;
}

-- A result that takes `n` bytes and succeeds.
pub record Takes (n : ℕ) (s : Internal) (r : Internal × Bool) : Type 0 where
  pub succeeds : r.1 ≡ true
  pub takes : r.0.pc ≡ s.pc + n
  pub same : Same s r.0

pub add_bytecode-Takes :
    (s : Internal) (bytes : List ℕ) (kind : BytecodeType)
    → ((add_bytecode s bytes kind).0.pc ≡ s.pc) × Same s (add_bytecode s bytes kind).0
unfolding add_bytecode
add_bytecode-Takes s bytes kind =
    if-cases (λ (r : Internal × Bool). (r.0.pc ≡ s.pc) × Same s r.0)
      (leb 15 (length s.insn.bytecodes)) (λ _. (refl, unread refl refl refl))
      λ _. (refl, unread refl refl refl)

finish_disp-Takes :
    (s : Internal) (n : ℕ) (bytes : List ℕ)
    → s.nb < 256
    → s.pc + n ≤ s.nb
    → Takes n s (finish_disp s n bytes)
unfolding finish_disp advance
finish_disp-Takes s n bytes h k =
    let s1 = record s { diagram = record (s.diagram) { has_disp = true } } in
    let added = add_bytecode-Takes (record s1 { pc = u8 (s.pc + n) }) bytes BytecodeType.disp in
    record {
      succeeds = refl;
      takes = omega (arith, added.0);
      same = record {
        same_nb = added.1.same_nb;
        same_mod = added.1.same_mod;
        same_address = added.1.same_address;
      };
    }

decode_disp8-Same :
    (s : Internal) (disp : ℤ) → ((decode_disp8 s disp).pc ≡ s.pc) × Same s (decode_disp8 s disp)
unfolding decode_disp8
decode_disp8-Same s disp =
    let P = λ (t : Internal). (t.pc ≡ s.pc) × Same s t in
    if-cases P (is_zero disp) (λ _. (refl, unread refl refl refl))
      λ _.
        if-cases P (s.diagram.enc == encoding_evex) (λ _. (refl, unread refl refl refl))
          λ _.
            if-cases P (s.diagram.enc == encoding_mvex) (λ _. (refl, unread refl refl refl))
              λ _. (refl, unread refl refl refl)

-- A displacement of 1, 2 or 4 bytes.
abbrev pub IsDispSize : ℕ → Type 0
IsDispSize n = (n ≡ 1) ⊎ (n ≡ 2) ⊎ (n ≡ 4)

pub after_same :
    {s t : Internal} {n : ℕ} {r : Internal × Bool}
    → t.pc ≡ s.pc
    → Same s t
    → Takes n t r
    → Takes n s r
after_same p m k = record {
  succeeds = k.succeeds;
  takes = omega (arith, k.takes);
  same = Same-trans m k.same;
}

module _ (s : Internal) (h : s.nb < 256) where
  fits_below : (n : ℕ) → s.pc + n ≤ s.nb → ltb s.nb (s.pc + n) ≡ false
  fits_below n k = ground arith

  disp1-Takes : s.pc + 1 ≤ s.nb → Takes 1 s (decode_disp s 1)
  unfolding decode_disp
  disp1-Takes k =
      let bytes = bytes_from s.address s.pc 1 in
      let start = decode_disp8-Same s (signed 8 (le_value bytes)) in
      rw (fits_below 1 k) (
        after_same start.0 start.1 (
          finish_disp-Takes _ 1 bytes (omega (arith, start.1.same_nb))
            (omega (arith, start.0, start.1.same_nb))))

  disp2-Takes : s.pc + 2 ≤ s.nb → Takes 2 s (decode_disp s 2)
  unfolding decode_disp
  disp2-Takes k =
      rw (fits_below 2 k)
        (after_same {s = s} refl (unread refl refl refl) (finish_disp-Takes _ 2 _ h k))

  disp4-Takes : s.pc + 4 ≤ s.nb → Takes 4 s (decode_disp s 4)
  unfolding decode_disp
  disp4-Takes k =
      rw (fits_below 4 k)
        (after_same {s = s} refl (unread refl refl refl) (finish_disp-Takes _ 4 _ h k))

  pub decode_disp-Takes : (n : ℕ) → IsDispSize n → s.pc + n ≤ s.nb → Takes n s (decode_disp s n)
  decode_disp-Takes n (inl e) k =
      subst (λ m. Takes m s (decode_disp s m)) (sym e) (disp1-Takes (omega arith))
  decode_disp-Takes n (inr (inl e)) k =
      subst (λ m. Takes m s (decode_disp s m)) (sym e) (disp2-Takes (omega arith))
  decode_disp-Takes n (inr (inr e)) k =
      subst (λ m. Takes m s (decode_disp s m)) (sym e) (disp4-Takes (omega arith))

pub Takes-trans :
    {s t : Internal} (m : ℕ) {n : ℕ} {r : Internal × Bool}
    → t.pc ≡ s.pc + m
    → Same s t
    → Takes n t r
    → Takes (m + n) s r
Takes-trans m p q k = record {
  succeeds = k.succeeds;
  takes = omega (arith, k.takes);
  same = Same-trans q k.same;
}

pub stays : (s : Internal) → Takes 0 s (s, true)
stays s = record { succeeds = refl; takes = omega arith; same = unread refl refl refl }

pub exactly : {s : Internal} {n m : ℕ} {r : Internal × Bool} → n ≡ m → Takes n s r → Takes m s r
exactly {s} {n} {m} {r} e k = subst (λ (t : ℕ). Takes t s r) e k
