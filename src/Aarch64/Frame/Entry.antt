-- ===== src/Aarch64/Frame/Entry.antt =====
-- What amed_aarch64_decode_insn of source/aarch64/decoder.c returns.
use amed.Base.{
  ℕ, ◌≡◌, refl, ◌∙◌, Bool, true, false, not, ◌&&◌, ◌||◌, Option, some, if◌then◌else◌, ◌==◌,
  if-cases, Bool-cases, inl, inr,
}
use amed.Base.Text.{◌>>=◌}
use amed.Aarch64.Database.{Encoding, Database}
use amed.Aarch64.State.{Insn, Internal}
use amed.Aarch64.Nodes.{has_opcode, decode_alias}
use amed.Aarch64.Entry.{
  start, opcode_at, try_alias, decode_as_alias, set_alias, amed_aarch64_decode_insn,
}
use amed.Aarch64.Frame.{Frame-refl, Frame-flags, Frame-trans}
use amed.Aarch64.Frame.Outcome.{Returns, returns, Ends, ends, Encoded, encoded}
use amed.Aarch64.Frame.Nodes.{AllReadable, decode_encoding-Encoded, decode_alias-Returns}

as_alias_lem :
    (s : Internal) (o : Option (Internal × Bool))
    → Returns s o
    → Ends s (do (t, is_alias) ← o; some (set_alias t is_alias))
as_alias_lem s _ (returns t true f) = ends _ (Frame-trans s t _ f (Frame-flags t _ refl refl refl))
as_alias_lem s _ (returns t false f) = ends t f

-- The length and the mark of an undefined instruction, of a call that returns.
data Finished (s : Internal) (b : Bool) : Option (Insn × Bool) → Type 0 where
  finished :
      (t : Insn)
      → t.length ≡ s.insn.length
      → t.is_undefined ≡ (if b then s.insn.is_undefined else true)
      → Finished s b (some (t, b))

ended :
    (s : Internal) (b : Bool) (t : Internal) (o : Option Internal)
    → t.insn.length ≡ s.insn.length
    → t.insn.is_undefined ≡ (if b then s.insn.is_undefined else true)
    → Ends t o
    → Finished s b (do u ← o; some (u.insn, b))
ended s b t _ length undefined (ends u f) =
    finished (u.insn) (f.same_length ∙ length) (f.same_undefined ∙ undefined)

finished_lem :
    (s : Internal) (b : Bool) (o : Option (Internal × Bool))
    (rest : Internal → Bool → Option Internal)
    → Encoded s b o
    → ((t : Internal) (ok : Bool) → Ends t (rest t ok))
    → Finished s b (do (t, ok) ← o; u ← rest t ok; some (u.insn, ok))
finished_lem s b _ rest (encoded t opcode length undefined) h =
    ended s b t (rest t b) length undefined (h t b)

-- What a call returns, in numbers and truth values: the result, the length and the mark.
abbrev Reports : Option (Insn × Bool) → Bool → ℕ → Bool → Type 0
Reports o ok length undefined =
    (t : Insn) × (o ≡ some (t, ok)) × (t.length ≡ length) × (t.is_undefined ≡ undefined)

reports_lem :
    (s : Internal) (b : Bool) (o : Option (Insn × Bool))
    → s.insn.is_undefined ≡ false
    → Finished s b o
    → Reports o b (s.insn.length) (not b)
reports_lem s true _ e (finished t length undefined) = (t, refl, length, undefined ∙ e)
reports_lem s false _ e (finished t length undefined) = (t, refl, length, undefined)

module _ (db : Database) (readable : (i : ℕ) → AllReadable db (db.arguments i)) where
  try_alias-Ends :
      (aliases : Bool) (e : Encoding) (s : Internal) (ok : Bool)
      → Ends s (try_alias db aliases e s ok)
  unfolding try_alias decode_as_alias
  try_alias-Ends aliases e s ok =
      if-cases (Ends s)
        (ok && aliases && e.has_alias && not (s.insn.is_undefined || s.insn.is_unpredictable))
        (λ _. as_alias_lem s (decode_alias db s e) (decode_alias-Returns db readable s e))
        (λ _. ends s (Frame-refl s))

  -- Where every immediate that the tables extend by its sign has 1 to 64 bits, every call returns. It
  -- succeeds exactly if the length is not 0 and the opcode has the fixed bits of the encoding that it
  -- is looked up to. The instruction is then 4 bytes long, and is marked as undefined exactly if those
  -- bits differ; with the length 0 it stays as it was in both.
  pub amed_aarch64_decode_insn-IsReturned :
      (before : Internal) (vector_size : ℕ) (aliases : Bool) (memory : ℕ → ℕ) (length : ℕ)
      (insn : Insn)
      → let fits = has_opcode (opcode_at memory) (db.encodings (db.lookup (opcode_at memory))) in
        Reports
          (amed_aarch64_decode_insn db before vector_size aliases memory length insn)
          (not (length == 0) && fits)
          (if length == 0 then insn.length else 4)
          (if length == 0 then insn.is_undefined else not fits)
  unfolding amed_aarch64_decode_insn
  amed_aarch64_decode_insn-IsReturned before vector_size aliases memory length insn =
      elim (Bool-cases (length == 0)) [
        | inl e ↦ rw e (insn, refl, refl, refl)
        | inr e ↦
            (let opcode = opcode_at memory in
              let s = start before opcode vector_size insn in
              rw e (
                reports_lem s _ _ refl (
                  finished_lem s _ _
                    (λ t ok. try_alias db aliases (db.encodings (db.lookup opcode)) t ok)
                    (decode_encoding-Encoded db readable s (db.lookup opcode))
                    (λ t ok. try_alias-Ends aliases _ t ok))))
      ]
