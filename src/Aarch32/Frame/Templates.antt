-- ===== src/Aarch32/Frame/Templates.antt =====
-- The templates, the encodings and the aliases of source/aarch32/decoder.c, and what they do to the IT
-- block.
use amed.Base.{
  ℕ, zero, suc, ◌+◌, ◌≡◌, refl, Bool, true, false, ◌&&◌, Option, none, some, List, [], ◌∷◌,
  if◌then◌else◌, if-cases,
}
use amed.Aarch32.Database.{Encoding, Template, Database}
use amed.Aarch32.State.{Internal}
use amed.Aarch32.It.{is_insn_in_it_block}
use amed.Aarch32.Nodes.{
  decode_nodes, finish_template, has_bitdiffs, fits_it, start_template, decode_execution,
  end_template, decode_template, try_template, templates_loop, has_opcode, decode_encoding,
  aliases_loop, decode_alias,
}
use amed.Aarch32.Frame.Nodes.{
  Keeps, Keeps-trans, flags-Keeps, Outcome, undefined, returns, Outcome-trans, Outcome-bind,
  decode_execution-Keeps, nodes_loop-Outcome,
}

-- A call that also fails where `b` is false.
pub data Guarded (s : Internal) (b : Bool) : Option (Internal × Bool) → Type 0 where
  unknown : Guarded s b none
  guarded :
      (t : Internal) (ok : Bool) → Keeps s t → (ok ≡ true → b ≡ true) → Guarded s b (some (t, ok))

Outcome-Guarded : (s : Internal) (o : Option (Internal × Bool)) → Outcome s o → Guarded s true o
Outcome-Guarded s _ undefined = unknown
Outcome-Guarded s _ (returns t ok f) = guarded t ok f (λ _. refl)

Guarded-Outcome :
    (s : Internal) (b : Bool) (o : Option (Internal × Bool)) → Guarded s b o → Outcome s o
Guarded-Outcome s b _ unknown = undefined
Guarded-Outcome s b _ (guarded t ok f h) = returns t ok f

if-Guarded :
    (s : Internal) (b : Bool) (o : Option (Internal × Bool)) (u : Internal)
    → Outcome s o
    → Keeps s u
    → Guarded s b (if b then o else some (u, false))
if-Guarded s true o u f h = Outcome-Guarded s o f
if-Guarded s false o u f h = guarded u false h (λ e. absurd cc)

module _ (db : Database) where
  end_template-Outcome : (s : Internal) (ok : Bool) → Outcome s (end_template db (s, ok))
  unfolding finish_template
  end_template-Outcome s true = returns _ true (
      Keeps-trans s (decode_execution s) _ (decode_execution-Keeps s)
        (flags-Keeps (decode_execution s) _ refl refl refl refl))
  end_template-Outcome s false = returns s false (flags-Keeps s s refl refl refl refl)

  pub decode_template-Outcome : (s : Internal) (t : Template) → Outcome s (decode_template db s t)
  unfolding decode_template decode_nodes start_template
  decode_template-Outcome s t =
      if-cases (Outcome s) (has_bitdiffs db (s.opcode) t && fits_it s t)
        (λ _.
          Outcome-bind s _ (end_template db)
            (Outcome-trans s (start_template db s t) _ (flags-Keeps s _ refl refl refl refl)
              (nodes_loop-Outcome db (start_template db s t) 0 (db.arguments (t.arguments))))
            end_template-Outcome)
        (λ _. returns _ false (flags-Keeps s _ refl refl refl refl))

  pub try_template-Outcome : (s : Internal) (t : Template) → Outcome s (try_template db s t)
  unfolding try_template
  try_template-Outcome s t =
      if-cases (Outcome s) (t.asmonly) (λ _. returns s false (flags-Keeps s s refl refl refl refl))
        (λ _. decode_template-Outcome s t)

  pub templates_loop-Outcome : (s : Internal) (i n : ℕ) → Outcome s (templates_loop db s i n)
  unfolding templates_loop
  templates_loop-Outcome s i zero = returns s false (flags-Keeps s s refl refl refl refl)
  templates_loop-Outcome s i (suc n) =
      Outcome-bind s (try_template db s (db.templates i)) _
        (try_template-Outcome s (db.templates i))
        (λ t ok.
          if-cases (Outcome t) ok (λ _. returns t true (flags-Keeps t t refl refl refl refl))
            (λ _. templates_loop-Outcome t (i + 1) n))

  pub decode_encoding-Guarded :
      (s : Internal) (i : ℕ)
      → Guarded s (has_opcode (s.opcode) (db.encodings i)) (decode_encoding db s i)
  unfolding decode_encoding
  decode_encoding-Guarded s i =
      let s1 = record s { encoding = db.encodings i; iencoding = i } in
      if-Guarded s (has_opcode (s.opcode) (db.encodings i)) _ _
        (Outcome-trans s s1 _ (flags-Keeps s s1 refl refl refl refl)
          (templates_loop-Outcome s1 _ _))
        (flags-Keeps s _ refl refl refl refl)

  pub decode_encoding-Outcome : (s : Internal) (i : ℕ) → Outcome s (decode_encoding db s i)
  decode_encoding-Outcome s i = Guarded-Outcome s _ _ (decode_encoding-Guarded s i)

  aliases_loop-Outcome : (s : Internal) (is : List ℕ) → Outcome s (aliases_loop db s is)
  unfolding aliases_loop
  aliases_loop-Outcome s [] = returns s false (flags-Keeps s s refl refl refl refl)
  aliases_loop-Outcome s (i ∷ is) =
      if-cases (Outcome s)
        (has_opcode (s.opcode) (db.encodings i)
          && db.alias_condition (s.opcode) (is_insn_in_it_block s) ((db.encodings i).aliases))
        (λ _. decode_encoding-Outcome s i) (λ _. aliases_loop-Outcome s is)

  pub decode_alias-Outcome : (s : Internal) (e : Encoding) → Outcome s (decode_alias db s e)
  unfolding decode_alias
  decode_alias-Outcome s e = aliases_loop-Outcome s (db.aliases (e.aliases))
