-- ===== src/X86/Moves/Whole.antt =====
-- From the opcode to the end, and the whole of `amed_x86_decode_insn`. The ModRM byte is taken
-- without a look at the number of bytes, so that the end can be one byte further.
use amed.Base.{ℕ, ◌+◌, ◌≤◌, ◌≡◌, ◌⊎◌, refl, Bool, true, false, Option, some, none, length, u8, max}
use amed.X86.Database.{Database}
use amed.X86.State.{Internal}
use amed.X86.Entry.{clear_insn}
use amed.X86.Moves.{recorded, Moves}

-- `Moves`, up to one byte past the end.
pub record Overruns (s t : Internal) : Type 0 where
  pub same_nb : t.nb ≡ s.nb
  pub grows : s.pc ≤ t.pc
  pub within : t.pc ≤ max s.pc (s.nb + 1)
  pub more : length s.insn.bytecodes ≤ length t.insn.bytecodes
  pub room : length t.insn.bytecodes ≤ max 15 (length s.insn.bytecodes)
  pub accounts :
      (15 ≤ length t.insn.bytecodes)
      ⊎ (recorded t.insn.bytecodes + s.pc ≡ recorded s.insn.bytecodes + t.pc)

-- It returns, and where it returns `true` the state is as `P` says.
abbrev pub Succeeds : (Internal → Type 0) → Option (Internal × Bool) → Type 0
Succeeds P none = false ≡ true
Succeeds P (some (t, ok)) = ok ≡ true → P t

-- What is promised of an instruction of `n` bytes or fewer, from the insn before.
pub record Decoded (n : ℕ) (s t : Internal) : Type 0 where
  pub at_most : t.insn.length ≤ n + 1
  pub entries : length t.insn.bytecodes ≤ max 15 (length s.insn.bytecodes)
  pub whole :
      (15 ≤ length t.insn.bytecodes)
      ⊎ (recorded t.insn.bytecodes ≡ recorded s.insn.bytecodes + t.insn.length)

-- The start of the instruction, and its end.
abbrev insn_start : ℕ → Internal → Internal
insn_start n s = record s { nb = u8 n; pc = 0; insn = clear_insn s.insn }

start-bytecodes : (n : ℕ) (s : Internal) → (insn_start n s).insn.bytecodes ≡ s.insn.bytecodes
unfolding clear_insn
start-bytecodes n s = refl

abbrev insn_end : Internal → Internal
insn_end t = record t { insn = record (t.insn) { length = t.pc } }
