-- ===== src/Aarch32/Frame/Returned.antt =====
-- Where a call of amed_aarch32_decode_insn of source/aarch32/decoder.c returns.
use amed.Base.{ℕ, ◌+◌, ◌<◌, ◌≡◌, refl, Bool, true, ◌&&◌, Option, List, [], ◌∷◌, is_some}
use amed.Aarch32.Database.{Node, Template, Database}
use amed.Aarch32.State.{Internal}
use amed.Aarch32.Nodes.{has_bitdiffs, end_template, has_opcode}
use amed.Aarch32.Frame.Defined.{Defined}
use amed.Aarch32.Frame.Operands.{is_readable}

-- A call that returns.
abbrev pub Returns {ℓ} : {A : Type ℓ} → Option A → Type 0
Returns o = is_some o ≡ true

-- C defines the decoding of every node of the list.
abbrev pub all_readable : Database → ℕ → List Node → Bool
all_readable db opcode [] = true
all_readable db opcode (n ∷ ns) = is_readable db opcode n && all_readable db opcode ns

-- C defines the decoding of all nodes of the template, if the opcode has its bits.
abbrev pub IsReadable : Database → ℕ → Template → Type 0
IsReadable db opcode t =
    has_bitdiffs db opcode t ≡ true → all_readable db opcode (db.arguments t.arguments) ≡ true

-- It does so for the templates of every encoding whose fixed bits the opcode has.
abbrev pub AllReadable : Database → ℕ → Type 0
AllReadable db opcode =
    (i : ℕ)
    → has_opcode opcode (db.encodings i) ≡ true
    → (j : ℕ) → j < (db.encodings i).template_count
    → IsReadable db opcode (db.templates ((db.encodings i).first_template + j))

module _ (db : Database) (opcode : ℕ) where
  end_template-Returns : (t : Internal) (ok : Bool) → Returns (end_template db (t, ok))
  end_template-Returns t ok = refl
