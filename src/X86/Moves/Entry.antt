-- ===== src/X86/Moves/Entry.antt =====
-- source/x86/decoder.c: the moves of `decode_entry` up to the opcode, and its result.
use amed.Base.{
  ℕ, ◌+◌, ◌%◌, ◌^◌, ◌<◌, ◌≤◌, ◌≡◌, refl, arith, some-cases, if-cases, is_some, [], ◌∷◌, Bool, true,
  not, Option, some, none, ◌==◌, length, u8,
}
use amed.X86.Names.{map_idx_0f0f, BytecodeType}
use amed.X86.Database.{Database}
use amed.X86.State.{Internal}
use amed.X86.Fetch.{peek_byte, advance_byte}
use amed.X86.Modrm.{decode_modrm}
use amed.X86.Legacy.{set_modrm_field, prefix_loop}
use amed.X86.Entry.{
  MachineMode, is_other, prefix_fuel, default_osz, default_asz, start_entry, read_3dnow, read_plain,
  read_opcode, decode_entry, clear_insn, amed_x86_decode_insn, set_opcode,
}
use amed.X86.Moves.{Moves, Moves-trans, Quiet, Quiet-Moves, quiet}
use amed.X86.Moves.Steps.{peek_byte-fits, add_bytecode-Moves}
use amed.X86.Moves.Modrm.{decode_modrm-Kept}
use amed.X86.Moves.Legacy.{Ended, prefix_loop-Ended}

-- From the reset to the end of the prefixes; 256 rounds are enough.
start_entry-Quiet :
    (mode : MachineMode) (features : ℕ) (s : Internal) → Quiet s (start_entry mode features s)
unfolding start_entry
start_entry-Quiet mode features s = quiet refl refl refl

-- For every mode, features and state with at most 255 bytes, the loop of the legacy prefixes ends
-- within 256 rounds from the reset of the fields, and has moved on within the bytes and recorded
-- what it read.
pub prefixes-Ended :
    (mode : MachineMode) (features : ℕ) (s : Internal)
    → s.nb < 256
    → Ended s (
        prefix_loop prefix_fuel (default_osz mode) (default_asz mode) (start_entry mode features s))
prefixes-Ended mode features s h =
    let q = start_entry-Quiet mode features s in
    let e =
      prefix_loop-Ended prefix_fuel (default_osz mode) (default_asz mode)
        (start_entry mode features s) (omega (arith, q.same_nb)) (omega (arith, q.same_nb)) in
    record { state = e.state; ends = e.ends; moves = Moves-trans (Quiet-Moves q) e.moves }

abbrev pub IsReturned : Option (Internal × Bool) → Type 0
IsReturned o = is_some o ≡ true

decode_entry-IsReturned :
    (db : Database) (mode : MachineMode) (features : ℕ) (s : Internal)
    → s.nb < 256
    → IsReturned (decode_entry db mode features s)
unfolding decode_entry
decode_entry-IsReturned db mode features s h =
    if-cases IsReturned (is_other mode) (λ _. refl)
      λ _.
        let p = prefixes-Ended mode features s h in
        rw p.ends (if-cases IsReturned (read_opcode p.state).2 (λ _. refl) λ _. refl)

IsReturned-cases :
    (o : Option (Internal × Bool)) (f : Internal × Bool → Internal × Bool)
    → IsReturned o
    → IsReturned (elim o [ none ↦ none | some r ↦ some (f r) ])
IsReturned-cases none f h = h
IsReturned-cases (some r) f h = refl

pub u8_below : (n : ℕ) → u8 n < 256
u8_below n = omega arith

-- For every database, mode, features, length and state before, `amed_x86_decode_insn` returns.
pub amed_x86_decode_insn-IsReturned :
    (db : Database) (mode : MachineMode) (features length : ℕ) (s : Internal)
    → IsReturned (amed_x86_decode_insn db mode features length s)
unfolding amed_x86_decode_insn
amed_x86_decode_insn-IsReturned db mode features length s =
    if-cases IsReturned (length == 0) (λ _. refl)
      λ _.
        let start = record s { nb = u8 length; pc = 0; insn = clear_insn s.insn } in
        IsReturned-cases (decode_entry db mode features start) _
          (decode_entry-IsReturned db mode features start (u8_below length))

-- Where the opcode is read, its record is a move.
abbrev OpcodeMoves : Internal → ℕ × Internal × Bool → Type 0
OpcodeMoves s (op, t, ok) = ok ≡ true → Moves s (set_opcode t op)

module _ (s t : Internal) (h : s.nb < 256) where
  -- After a quiet change, the byte that is left is the opcode.
  opcode-Moves :
      (op : ℕ)
      → s.pc + 1 ≤ s.nb
      → t.pc ≡ (s.pc + 1) % 2 ^ 8
      → t.nb ≡ s.nb
      → t.insn.bytecodes ≡ s.insn.bytecodes
      → Moves s (set_opcode t op)
  unfolding set_opcode
  opcode-Moves op k p n b =
      Moves-trans
        (add_bytecode-Moves s t (op ∷ []) BytecodeType.opcode (omega arith) (omega arith) n b)
        (Quiet-Moves (quiet refl refl refl))

module _ (s : Internal) (h : s.nb < 256) where
  read_plain-OpcodeMoves : OpcodeMoves s (read_plain s)
  unfolding read_plain advance_byte set_modrm_field
  read_plain-OpcodeMoves =
      some-cases (OpcodeMoves s) (peek_byte s) (λ _ no. absurd (ground arith))
        λ op e.
          let k = (peek_byte-fits s op e).0 in
          some-cases (OpcodeMoves s) (peek_byte (advance_byte s))
            (λ _ _. opcode-Moves s (set_modrm_field (advance_byte s) 0) h op k refl refl refl)
            λ modrm _ _.
              opcode-Moves s (set_modrm_field (advance_byte s) modrm) h op k refl refl refl

  read_3dnow-OpcodeMoves : OpcodeMoves s (read_3dnow s)
  unfolding read_3dnow advance_byte set_modrm_field
  read_3dnow-OpcodeMoves =
      some-cases (OpcodeMoves s) (peek_byte s) (λ _ no. absurd (ground arith))
        λ modrm e.
          let r = decode_modrm (set_modrm_field s modrm) in
          let m =
            (decode_modrm-Kept (set_modrm_field s modrm) h (peek_byte-fits s modrm e).0).moves in
          if-cases (OpcodeMoves s) (not r.1) (λ _ no. absurd (ground arith))
            λ _.
              some-cases (OpcodeMoves s) (peek_byte r.0) (λ _ no. absurd (ground arith))
                λ op f _. Moves-trans (Moves-trans (Quiet-Moves (quiet refl refl refl)) m) (
                  opcode-Moves r.0 (advance_byte r.0) (omega (arith, m.same_nb)) op
                    (peek_byte-fits r.0 op f).0 refl refl refl)

-- For every state with at most 255 bytes: where the opcode is read, of a 3DNow! instruction after
-- its operands and of any other before them, the decoder has only moved on within the bytes, and
-- has recorded what it read.
pub read_opcode-Moves :
    (s : Internal)
    → s.nb < 256
    → (read_opcode s).2 ≡ true
    → Moves s (set_opcode (read_opcode s).1 (read_opcode s).0)
unfolding read_opcode
read_opcode-Moves s h =
    if-cases (OpcodeMoves s) (s.mapidx == map_idx_0f0f) (λ _. read_3dnow-OpcodeMoves s h)
      λ _. read_plain-OpcodeMoves s h
