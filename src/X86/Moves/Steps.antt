-- ===== src/X86/Moves/Steps.antt =====
-- source/x86/decoder.c: the moves of `advance` and `add_bytecode`.
use amed.Base.{
  ℕ, zero, suc, ◌+◌, ◌%◌, ◌^◌, ◌≤◌, ◌<◌, ◌≡◌, refl, arith, ap, some, List, [], ◌∷◌, length,
  length-append,
}
use amed.X86.Names.{BytecodeType}
use amed.X86.State.{Bytecode, Internal}
use amed.X86.Fetch.{add_bytecode, advance, advance_byte, bytes_from, peek_byte, peek_bytes}
use amed.X86.Moves.{recorded, recorded-append, Moves, Quiet}

pub length-bytes_from : (m : ℕ → ℕ) (pc n : ℕ) → length (bytes_from m pc n) ≡ n
length-bytes_from m pc zero = refl
length-bytes_from m pc (suc n) = omega (arith, length-bytes_from m (pc + 1) n)

pub peek_bytes-fits :
    (s : Internal) (n : ℕ) (bytes : List ℕ)
    → peek_bytes s n ≡ some bytes
    → (s.pc + n ≤ s.nb) × (bytes ≡ bytes_from s.address s.pc n)
unfolding peek_bytes
peek_bytes-fits s n bytes e = ground arith

pub peek_byte-fits :
    (s : Internal) (byte : ℕ)
    → peek_byte s ≡ some byte
    → (s.pc + 1 ≤ s.nb) × (byte ≡ s.address s.pc)
unfolding peek_byte
peek_byte-fits s byte e = ground arith

abbrev pub entry : List ℕ → BytecodeType → List Bytecode
entry bytes kind = record { kind = kind; length = length bytes; bytes = bytes } ∷ []

-- From a quiet change of `s`, with `n` bytes left, the move over those bytes and their record.
pub advance-Moves :
    {s t : Internal} (n : ℕ) (bytes : List ℕ) (kind : BytecodeType)
    → s.nb < 256
    → s.pc + n ≤ s.nb
    → length bytes ≡ n
    → Quiet s t
    → Moves s (add_bytecode (advance t n) bytes kind).0
unfolding add_bytecode advance
advance-Moves {s} {t} n bytes kind k h l q = ground (
  arith,
  length-append t.insn.bytecodes (entry bytes kind),
  recorded-append t.insn.bytecodes (entry bytes kind),
  ap length q.same_bytecodes,
  ap recorded q.same_bytecodes,
)

pub taken-Moves :
    {s t : Internal} (n : ℕ) (bytes : List ℕ) (kind : BytecodeType)
    → s.nb < 256
    → peek_bytes s n ≡ some bytes
    → Quiet s t
    → Moves s (add_bytecode (advance t n) bytes kind).0
taken-Moves {s} n bytes kind k e q =
    let fits = peek_bytes-fits s n bytes e in
    advance-Moves n bytes kind k fits.0 (rw fits.1 (length-bytes_from s.address s.pc n)) q

pub add_bytecode-advance_byte :
    (s : Internal) (bytes : List ℕ) (kind : BytecodeType)
    → add_bytecode (advance_byte s) bytes kind ≡ add_bytecode (advance s 1) bytes kind
unfolding advance_byte advance
add_bytecode-advance_byte s bytes kind = refl

-- The position is that of the state before the record.
pub pc-add_bytecode :
    (s : Internal) (bytes : List ℕ) (kind : BytecodeType) → (add_bytecode s bytes kind).0.pc ≡ s.pc
unfolding add_bytecode
pc-add_bytecode s bytes kind = ground arith

-- A record of the bytes between the positions of `s` and `t` is a move.
pub add_bytecode-Moves :
    (s t : Internal) (bytes : List ℕ) (kind : BytecodeType)
    → t.pc ≡ s.pc + length bytes
    → t.pc ≤ s.nb
    → t.nb ≡ s.nb
    → t.insn.bytecodes ≡ s.insn.bytecodes
    → Moves s (add_bytecode t bytes kind).0
unfolding add_bytecode
add_bytecode-Moves s t bytes kind p k n q = ground (
  arith,
  length-append t.insn.bytecodes (entry bytes kind),
  recorded-append t.insn.bytecodes (entry bytes kind),
  ap length q,
  ap recorded q,
)

-- One byte that is left is taken; the change around it is quiet.
pub taken_byte-Moves :
    {s : Internal} (t : Internal) (byte : ℕ) (kind : BytecodeType)
    → s.nb < 256
    → s.pc + 1 ≤ s.nb
    → t.pc ≡ (s.pc + 1) % 2 ^ 8
    → t.nb ≡ s.nb
    → t.insn.bytecodes ≡ s.insn.bytecodes
    → Moves s (add_bytecode t (byte ∷ []) kind).0
taken_byte-Moves {s} t byte kind h k p n b =
    add_bytecode-Moves s t (byte ∷ []) kind (omega arith) (omega arith) n b
