-- ===== src/Aarch32/Entry.antt =====
-- source/aarch32/decoder.c, `is_thumb16` and `amed_aarch32_decode_insn`.
pub mod Short
use amed.Base.{
  ℕ, ◌+◌, ◌*◌, ◌/◌, ◌%◌, ◌^◌, Bool, true, false, not, ◌&&◌, ◌||◌, Option, none, some, ltb, ◌==◌,
  if◌then◌else◌, field,
}
use amed.Base.Text.{◌>>=◌}
use amed.Aarch32.Database.{Encoding, Database}
use amed.Aarch32.State.{Insn, ItBlock, Internal}
use amed.Aarch32.Nodes.{decode_encoding, decode_alias}

-- `amed_machine_mode`; `other` is a mode that AArch32 does not have.
pub data MachineMode : Type 0 where
  arm thumb other : MachineMode

unfoldable pub is_thumb16 : ℕ → Bool
is_thumb16 opcode =
    let op0 = field 13 3 opcode in
    let op1 = field 11 2 opcode in not (op0 == 7) || op0 == 7 && op1 == 0

-- The little-endian words at the address.
abbrev pub half_at : (ℕ → ℕ) → ℕ
half_at memory = memory 0 + 2 ^ 8 * memory 1

abbrev pub word_at : (ℕ → ℕ) → ℕ
word_at memory = memory 0 + 2 ^ 8 * memory 1 + 2 ^ 16 * memory 2 + 2 ^ 24 * memory 3

-- The first half word comes to the top.
abbrev pub swapped : ℕ → ℕ
swapped word = word * 2 ^ 16 % 2 ^ 32 + word / 2 ^ 16

-- What is fetched: the opcode, its encoding, the length, and whether it is an A32 instruction.
pub record Fetched : Type 0 where
  pub opcode : ℕ
  pub iencoding : ℕ
  pub length : ℕ
  pub is_arm : Bool

-- `none` where the bytes do not suffice, or the mode is none of the two.
unfoldable pub fetch : Database → MachineMode → (ℕ → ℕ) → ℕ → Option Fetched
unfolding is_thumb16
fetch db MachineMode.arm memory length =
    if ltb length 4
    then none
    else some (record {
      opcode = word_at memory;
      iencoding = db.lookup_a32 (word_at memory);
      length = 4;
      is_arm = true;
    })
fetch db MachineMode.thumb memory length =
    if ltb length 2
    then none
    else if is_thumb16 (half_at memory)
    then some (record {
      opcode = half_at memory;
      iencoding = db.lookup_t16 (half_at memory);
      length = 2;
      is_arm = false;
    })
    else if ltb length 4
    then none
    else some (record {
      opcode = swapped (word_at memory);
      iencoding = db.lookup_t32 (swapped (word_at memory));
      length = 4;
      is_arm = false;
    })
fetch db MachineMode.other memory length = none

-- The instruction without the flags that share the word `attributes`.
abbrev pub clear_insn : Insn → Insn
clear_insn insn = record insn {
  is_undefined = false;
  is_deprecated = false;
  is_unpredictable = false;
  is_alias = false;
  is_vector = false;
  is_atomic = false;
  is_acquiring = false;
  is_releasing = false;
  is_constructive = false;
  is_destructive = false;
  may_branch = false;
  may_load = false;
  may_store = false;
  is_running_conditionally = false;
}

-- The state of a decoding. `lsb` and `dst_reg` are what the stack holds before the call.
abbrev pub start : Internal → ItBlock → Fetched → Insn → Internal
start before itblock fetched insn = record before {
  itblock = itblock;
  insn = record (clear_insn insn) { length = fetched.length };
  opcode = fetched.opcode;
  is_arm = fetched.is_arm;
  has_reg = false;
}

abbrev pub set_alias : Internal → Bool → Internal
set_alias s is_alias =
    if is_alias then record s { insn = record (s.insn) { is_alias = true } } else s

-- The encoding's alias, if it has one that fits.
unfoldable pub decode_as_alias : Database → Internal → Encoding → Option Internal
decode_as_alias db s e = do (s1, is_alias) ← decode_alias db s e; some (set_alias s1 is_alias)

-- The alias, where the caller wants one and the instruction is as it should be.
unfoldable pub try_alias : Database → Bool → Encoding → Internal → Bool → Option Internal
try_alias db decode_aliases e s ok =
    if ok && decode_aliases && e.has_alias && not (s.insn.is_undefined || s.insn.is_unpredictable)
    then decode_as_alias db s e
    else some s

-- What follows the fetch.
unfoldable pub decode_fetched :
    Database → Internal → ItBlock → Bool → Insn → Fetched → Option (Insn × ItBlock × Bool)
decode_fetched db before itblock decode_aliases insn fetched = do
  (s, ok) ← decode_encoding db (start before itblock fetched insn) (fetched.iencoding)
  t ← try_alias db decode_aliases (db.encodings (fetched.iencoding)) s ok
  some (t.insn, t.itblock, ok)

-- `before` is what the stack holds before the call. The length is an `int32_t`, here not negative.
unfoldable pub amed_aarch32_decode_insn :
    Database
    → Internal
    → MachineMode
    → Bool
    → ItBlock
    → (ℕ → ℕ)
    → ℕ
    → Insn
    → Option (Insn × ItBlock × Bool)
amed_aarch32_decode_insn db before mode decode_aliases itblock memory length insn =
    if length == 0 then some (insn, itblock, false) else elim (fetch db mode memory length) [
      | none ↦ some (record (clear_insn insn) { length = 4 }, itblock, false)
      | some fetched ↦ decode_fetched db before itblock decode_aliases insn fetched
    ]
