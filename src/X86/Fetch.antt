-- ===== src/X86/Fetch.antt =====
-- source/x86/decoder.c, the reads of the instruction's bytes and the record that is kept of them.
-- `pc` is a `uint8_t`, and sums with it are made in `int`.
use amed.Base.{
  ℕ, zero, suc, ◌+◌, ◌*◌, Bool, true, false, Option, none, some, List, [], ◌∷◌, ◌++◌, ltb, leb,
  if◌then◌else◌, length, u8,
}
use amed.X86.Names.{BytecodeType}
use amed.X86.State.{Internal}

-- `n` bytes of memory from `pc` on.
abbrev pub bytes_from : (ℕ → ℕ) → ℕ → ℕ → List ℕ
bytes_from address pc zero = []
bytes_from address pc (suc n) = address pc ∷ bytes_from address (pc + 1) n

-- The number that bytes in little-endian order stand for.
abbrev pub le_value : List ℕ → ℕ
le_value [] = 0
le_value (b ∷ bs) = b + 256 * le_value bs

-- `AMED_X86_MAX_BYTECODE_COUNT`.
abbrev pub max_bytecode_count : ℕ
max_bytecode_count = 15

-- The bytes that are kept are the first `length` of the buffer, which the callers give alone.
unfoldable pub add_bytecode : Internal → List ℕ → BytecodeType → Internal × Bool
add_bytecode s buffer kind =
    if leb max_bytecode_count (length s.insn.bytecodes) then (s, false) else (
      record s {
        insn = record (s.insn) {
          bytecodes =
              s.insn.bytecodes
              ++ record { kind = kind; length = length buffer; bytes = buffer } ∷ [];
        };
      },
      true,
    )

-- `none` is the result `false`, with which `*byte` is not written.
unfoldable pub peek_byte : Internal → Option ℕ
peek_byte s = if ltb s.nb (s.pc + 1) then none else some (s.address s.pc)

unfoldable pub peek_bytes : Internal → ℕ → Option (List ℕ)
peek_bytes s n = if ltb s.nb (s.pc + n) then none else some (bytes_from s.address s.pc n)

unfoldable pub advance_byte : Internal → Internal
advance_byte s = record s { pc = u8 (s.pc + 1) }

-- `pinternal->pc += n`.
unfoldable pub advance : Internal → ℕ → Internal
advance s n = record s { pc = u8 (s.pc + n) }
