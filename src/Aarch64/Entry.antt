-- ===== src/Aarch64/Entry.antt =====
-- source/aarch64/decoder.c, `amed_aarch64_decode_insn`.
use amed.Base.{
  ℕ, ◌+◌, ◌*◌, ◌^◌, Bool, true, false, not, ◌&&◌, ◌||◌, Option, some, ◌==◌, if◌then◌else◌,
}
use amed.Base.Text.{◌>>=◌}
use amed.Aarch64.Database.{Encoding, Database}
use amed.Aarch64.State.{Insn, Internal}
use amed.Aarch64.Nodes.{decode_encoding, decode_alias}

-- The instruction without the flags that share the word `attributes`.
abbrev pub clear_insn : Insn → Insn
clear_insn insn = record insn {
  is_undefined = false;
  is_unpredictable = false;
  is_alias = false;
  is_vector = false;
  is_predicated = false;
  is_constructive = false;
  is_destructive = false;
  may_branch = false;
  may_load = false;
  may_store = false;
  is_running_conditionally = false;
}

-- The state of a decoding: all that the source leaves out is 0 or null there.
abbrev pub start : Internal → ℕ → ℕ → Insn → Internal
start s opcode vector_size insn = record s {
  insn = record (clear_insn insn) { length = 4 };
  vector_size = vector_size;
  opcode = opcode;
  datasize = 0;
  lsb = 0;
  dst_reg = 0;
  has_reg = false;
}

abbrev pub set_alias : Internal → Bool → Internal
set_alias s is_alias =
    if is_alias then record s { insn = record (s.insn) { is_alias = true } } else s

-- The encoding's alias, if it has one that fits.
unfoldable pub decode_as_alias : Database → Internal → Encoding → Option Internal
decode_as_alias db s e = do (s1, is_alias) ← decode_alias db s e; some (set_alias s1 is_alias)

-- The alias, where the caller wants one and the instruction is as it should be.
unfoldable pub try_alias : Database → Bool → Encoding → Internal → Bool → Option Internal
try_alias db decode_aliases e s ok =
    if ok && decode_aliases && e.has_alias && not (s.insn.is_undefined || s.insn.is_unpredictable)
    then decode_as_alias db s e
    else some s

-- The 4 bytes at the address.
abbrev pub opcode_at : (ℕ → ℕ) → ℕ
opcode_at memory = memory 0 + 2 ^ 8 * memory 1 + 2 ^ 16 * memory 2 + 2 ^ 24 * memory 3

-- `before` is what the stack holds before the call.
unfoldable pub amed_aarch64_decode_insn :
    Database → Internal → ℕ → Bool → (ℕ → ℕ) → ℕ → Insn → Option (Insn × Bool)
amed_aarch64_decode_insn db before vector_size decode_aliases memory length insn =
    let opcode = opcode_at memory in
    let i = db.lookup opcode in
    if length == 0 then some (insn, false) else do
      (s, ok) ← decode_encoding db (start before opcode vector_size insn) i
      t ← try_alias db decode_aliases (db.encodings i) s ok
      some (t.insn, ok)
