-- ===== src/Aarch32/Entry/Short.antt =====
-- `amed_aarch32_decode_insn` of source/aarch32/decoder.c where the bytes do not suffice.
use amed.Base.{
  ℕ, ◌/◌, ◌^◌, ◌<◌, ◌≡◌, refl, arith, Bool, false, none, some, ltb, ◌==◌, if◌then◌else◌,
}
use amed.Aarch32.Database.{Database}
use amed.Aarch32.State.{Insn, ItBlock, Internal}
use amed.Aarch32.Entry.{
  MachineMode, is_thumb16, half_at, clear_insn, fetch, amed_aarch32_decode_insn,
}

-- The bytes of an instruction: of a T32 one 2, unless its first five bits are 11101, 11110 or 11111.
unfoldable pub needed : MachineMode → (ℕ → ℕ) → ℕ
needed MachineMode.arm memory = 4
needed MachineMode.thumb memory = if ltb (half_at memory / 2 ^ 11) 29 then 2 else 4
needed MachineMode.other memory = 2 ^ 32

is_thumb16_lem : (half : ℕ) → half < 2 ^ 16 → is_thumb16 half ≡ ltb (half / 2 ^ 11) 29
unfolding is_thumb16
is_thumb16_lem half h = ground arith

fetch-short :
    (db : Database) (mode : MachineMode) (memory : ℕ → ℕ) (length : ℕ)
    → memory 0 < 2 ^ 8
    → memory 1 < 2 ^ 8
    → length < needed mode memory
    → fetch db mode memory length ≡ none
unfolding fetch needed
fetch-short db MachineMode.arm memory length low high h = ground arith
fetch-short db MachineMode.thumb memory length low high h =
    ground (arith, is_thumb16_lem (half_at memory))
fetch-short db MachineMode.other memory length low high h = refl

-- For every database, mode, state and memory of bytes, and every length from 1 up to less than the
-- architecture has bytes in the instruction there (in a mode that AArch32 does not have: every length
-- of 32 bits), the call fails, the IT block stays as it was, and so does the instruction but for its
-- flags, which are cleared, and its length, which is 4.
pub amed_aarch32_decode_insn-short :
    (db : Database) (before : Internal) (mode : MachineMode) (aliases : Bool) (itblock : ItBlock)
    (memory : ℕ → ℕ) (length : ℕ) (insn : Insn)
    → memory 0 < 2 ^ 8
    → memory 1 < 2 ^ 8
    → 0 < length
    → length < needed mode memory
    → amed_aarch32_decode_insn db before mode aliases itblock memory length insn
      ≡ some (record (clear_insn insn) { length = 4 }, itblock, false)
unfolding amed_aarch32_decode_insn
amed_aarch32_decode_insn-short db before mode aliases itblock memory length insn low high pos h =
    let more : (length == 0) ≡ false = ground arith in
    rw (more, fetch-short db mode memory length low high h) refl
