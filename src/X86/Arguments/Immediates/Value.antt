-- ===== src/X86/Arguments/Immediates/Value.antt =====
-- source/x86/decoder.c: the value of `decode_arg_imm`, from the bytes of the instruction.
use amed.Base.{
  ℕ, zero, suc, ◌+◌, ◌*◌, ◌/◌, ◌^◌, ◌<◌, ◌≤◌, ◌≡◌, refl, ap, ◌∙◌, arith, Bool, true, false, not,
  none, if-cases, some-cases, ◌==◌, ==_iff, u8,
}
use amed.Base.Int.{signed}
use amed.Utils.Datatype.{is_datatype_signed, get_normalized_datatype}
use amed.Utils.Datatype.Normalized.{get_normalized_datatype_keeps}
use amed.X86.Symbols.{encodedin_is4}
use amed.X86.Database.{AnyNode}
use amed.X86.State.{Internal}
use amed.X86.Fetch.{bytes_from, le_value, peek_bytes}
use amed.X86.Register.{get_real_size}
use amed.X86.Arguments.Slots.{argument_at, set_argument}
use amed.X86.Arguments.Immediates.{start_immediate, set_immediate, decode_arg_imm}
use amed.X86.Arguments.Immediates.Extension.{extend_immediate_lem}
use amed.Base.Bits.{pow_add}
use amed.X86.Moves.Steps.{peek_bytes-fits}
use native.Mathlib.Nat.{pow-suc}

-- Bytes make up a number that fits them.
le_value_below :
    (address : ℕ → ℕ) (pc n : ℕ)
    → ((j : ℕ) → address j < 256)
    → le_value (bytes_from address pc n) < 256 ^ n
le_value_below address pc zero h = omega arith
le_value_below address pc (suc n) h =
    omega (arith, h pc, le_value_below address (pc + 1) n h, pow-suc 256 n)

imm_at : (s : Internal) (i imm : ℕ) → (argument_at (set_immediate s i imm) i).imm ≡ imm
unfolding set_immediate
imm_at s i imm = rw ((==_iff i i).1 refl) refl

pow_bytes : (n : ℕ) → 256 ^ n ≡ 2 ^ (n * 8)
pow_bytes zero = refl
pow_bytes (suc n) =
    let whole : suc n * 8 ≡ n * 8 + 8 = omega arith in
    rw whole (omega (arith, pow-suc 256 n, pow_add (n * 8) 8, pow_bytes n))

peek_bytes-ends : (s : Internal) (n : ℕ) → peek_bytes s n ≡ none → s.nb < s.pc + n
unfolding peek_bytes
peek_bytes-ends s n e = ground arith

-- For every signed immediate argument, not in the IS4 byte, of 1 to 8 whole bytes that are left
-- and are below 256: `decode_arg_imm` succeeds, and the 64-bit value of the argument stands for the
-- number that the bytes do in little-endian order and two's complement.
pub decode_arg_imm-le_value :
    (s : Internal) (i : ℕ) (n : AnyNode) (nbytes : ℕ)
    → ((j : ℕ) → s.address j < 256)
    → n.has_encodedin ≡ true
    → (n.value == encodedin_is4) ≡ false
    → is_datatype_signed n.datatype ≡ true
    → get_real_size n.size s.diagram.osz ≡ nbytes * 8
    → 1 ≤ nbytes
    → nbytes ≤ 8
    → s.pc + nbytes ≤ s.nb
    → ((decode_arg_imm s i n).1 ≡ true)
      × (signed 64 (argument_at (decode_arg_imm s i n).0 i).imm
          ≡ signed (nbytes * 8) (le_value (bytes_from s.address s.pc nbytes)))
unfolding decode_arg_imm
decode_arg_imm-le_value s i n nbytes bytes enc other sign size one eight fits =
    let size8 : u8 (get_real_size n.size s.diagram.osz / 8) ≡ nbytes = omega (arith, size) in
    let signs : is_datatype_signed (get_normalized_datatype n.datatype (nbytes * 8)) ≡ true =
      (get_normalized_datatype_keeps n.datatype (nbytes * 8)).0 ∙ sign in
    let value = le_value (bytes_from s.address s.pc nbytes) in
    let below : value < 2 ^ (nbytes * 8) =
      omega (arith, le_value_below s.address s.pc nbytes bytes, pow_bytes nbytes) in
    let extended = extend_immediate_lem (nbytes * 8) value (omega arith) (omega arith) below in
    let real = get_real_size n.size s.diagram.osz in
    let s1 = set_argument s i (start_immediate n real (argument_at s i)) in
    let P = λ (r : Internal × Bool).
      (r.1 ≡ true) × (signed 64 (argument_at r.0 i).imm ≡ signed (nbytes * 8) value) in
    if-cases P (not n.has_encodedin) (λ no. absurd (ground arith))
      λ _.
        if-cases P (n.value == encodedin_is4) (λ no. absurd (ground arith))
          λ _.
            some-cases P (peek_bytes s1 (u8 (real / 8)))
              (λ e. absurd (omega (arith, peek_bytes-ends s1 (u8 (real / 8)) e)))
              λ v e.
                let read : v ≡ bytes_from s.address s.pc nbytes =
                  (peek_bytes-fits s1 (u8 (real / 8)) v e).1
                  ∙ ap (bytes_from s.address s.pc) size8 in
                (refl, ap (signed 64) (imm_at _ i _) ∙ rw size (rw signs (rw read extended)))
