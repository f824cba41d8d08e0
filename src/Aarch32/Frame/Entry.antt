-- ===== src/Aarch32/Frame/Entry.antt =====
-- What amed_aarch32_decode_insn of source/aarch32/decoder.c does to the IT block and returns.
use amed.Base.{
  ℕ, ◌≡◌, refl, ◌∙◌, sym, subst, ap, Bool, true, false, not, ◌&&◌, ◌||◌, Option, none, some, ◌==◌,
  if-cases, arith, ◌⊎◌, inl, inr, Bool-cases, Option-cases,
}
use amed.Base.Text.{◌>>=◌}
use amed.Aarch32.Database.{Encoding, Database}
use amed.Aarch32.State.{ItBlock, Insn, Internal}
use amed.Aarch32.Nodes.{has_opcode, decode_alias}
use amed.Aarch32.Entry.{
  MachineMode, Fetched, fetch, start, set_alias, decode_as_alias, try_alias, decode_fetched,
  amed_aarch32_decode_insn,
}
use amed.Aarch32.Frame.Nodes.{IsValid, Keeps, Keeps-trans, flags-Keeps, Outcome, undefined, returns}
use amed.Aarch32.Frame.Templates.{
  Guarded, unknown, guarded, decode_encoding-Guarded, decode_alias-Outcome,
}

-- The same of a call that has no result but the state.
data Ends (s : Internal) : Option Internal → Type 0 where
  broken : Ends s none
  ends : (t : Internal) → Keeps s t → Ends s (some t)

as_alias-Ends :
    (s : Internal) (o : Option (Internal × Bool))
    → Outcome s o
    → Ends s (do (t, is_alias) ← o; some (set_alias t is_alias))
as_alias-Ends s _ undefined = broken
as_alias-Ends s _ (returns t true f) =
    ends _ (Keeps-trans s t _ f (flags-Keeps t _ refl refl refl refl))
as_alias-Ends s _ (returns t false f) = ends t f

-- The instruction and the IT block that a call for the fetched word leaves, where it returns: what it
-- says of the state `s` that it starts in, and of the bits `b` of the encoding.
data Leaves (s : Internal) (b : Bool) : Option (Insn × ItBlock × Bool) → Type 0 where
  nothing : Leaves s b none
  leaves :
      (t : Internal) (ok : Bool)
      → Keeps s t
      → (ok ≡ true → b ≡ true)
      → Leaves s b (some (t.insn, t.itblock, ok))

left :
    (s : Internal) (b : Bool) (t : Internal) (ok : Bool) (o : Option Internal)
    → Keeps s t
    → (ok ≡ true → b ≡ true)
    → Ends t o
    → Leaves s b (do u ← o; some (u.insn, u.itblock, ok))
left s b t ok _ f h broken = nothing
left s b t ok _ f h (ends u g) = leaves u ok (Keeps-trans s t u f g) h

left_lem :
    (s : Internal) (b : Bool) (o : Option (Internal × Bool))
    (rest : Internal → Bool → Option Internal)
    → Guarded s b o
    → ((t : Internal) (ok : Bool) → Ends t (rest t ok))
    → Leaves s b (do (t, ok) ← o; u ← rest t ok; some (u.insn, u.itblock, ok))
left_lem s b _ rest unknown h = nothing
left_lem s b _ rest (guarded t ok f g) h = left s b t ok (rest t ok) f g (h t ok)

abbrev pub is_arm_mode : MachineMode → Bool
is_arm_mode MachineMode.arm = true
is_arm_mode _ = false

fetch-is_arm :
    (db : Database) (mode : MachineMode) (memory : ℕ → ℕ) (length : ℕ) (f : Fetched)
    → fetch db mode memory length ≡ some f
    → f.is_arm ≡ is_arm_mode mode
unfolding fetch
fetch-is_arm db MachineMode.arm memory length f e = ground arith
fetch-is_arm db MachineMode.thumb memory length f e = ground arith
fetch-is_arm db MachineMode.other memory length f e = absurd cc

-- The word at the address has the fixed bits of the encoding that it is looked up to, and the
-- instruction has the word's length.
abbrev pub Fits : Database → MachineMode → (ℕ → ℕ) → ℕ → Insn → Type 0
Fits db mode memory length insn =
    (f : Fetched) × (fetch db mode memory length ≡ some f)
    × (has_opcode (f.opcode) (db.encodings (f.iencoding)) ≡ true)
    × (insn.length ≡ f.length)

-- What a call that returns shows of its states.
Left : (s : Internal) (b : Bool) (insn : Insn) (itblock : ItBlock) (ok : Bool) → Type 0
Left s b insn itblock ok =
    (t : Internal) × Keeps s t
    × (t.insn ≡ insn)
    × (t.itblock ≡ itblock)
    × ((ok ≡ false) ⊎ (b ≡ true))

Leaves-Left :
    (s : Internal) (b : Bool) (o : Option (Insn × ItBlock × Bool)) {insn : Insn} {itblock : ItBlock}
    {ok : Bool}
    → Leaves s b o
    → o ≡ some (insn, itblock, ok)
    → Left s b insn itblock ok
unfolding Left
Leaves-Left s b _ nothing e = absurd cc
Leaves-Left s b _ (leaves t ok f h) e =
    (t, f, cc, cc, elim (Bool-cases ok) [ inl yes_ok ↦ inr (h yes_ok) | inr no_ok ↦ inl cc ])

abbrev returned : Insn × ItBlock × Bool → Option (Insn × ItBlock × Bool)
returned r = some r

-- What the theorem says of a call.
abbrev Safe : Database → MachineMode → (ℕ → ℕ) → ℕ → ItBlock → Insn → ItBlock → Bool → Type 0
Safe db mode memory length itblock insn' itblock' ok =
    IsValid itblock'
    × ((is_arm_mode mode ≡ false) ⊎ (itblock' ≡ itblock))
    × ((ok ≡ false) ⊎ Fits db mode memory length insn')

module _ (db : Database) where
  try_alias-Ends :
      (aliases : Bool) (e : Encoding) (s : Internal) (ok : Bool)
      → Ends s (try_alias db aliases e s ok)
  unfolding try_alias decode_as_alias
  try_alias-Ends aliases e s ok =
      if-cases (Ends s)
        (ok && aliases && e.has_alias && not (s.insn.is_undefined || s.insn.is_unpredictable))
        (λ _. as_alias-Ends s (decode_alias db s e) (decode_alias-Outcome db s e))
        (λ _. ends s (flags-Keeps s s refl refl refl refl))

  decode_fetched-Leaves :
      (before : Internal) (itblock : ItBlock) (aliases : Bool) (insn : Insn) (f : Fetched)
      → Leaves
          (start before itblock f insn)
          (has_opcode (f.opcode) (db.encodings (f.iencoding)))
          (decode_fetched db before itblock aliases insn f)
  unfolding decode_fetched
  decode_fetched-Leaves before itblock aliases insn f =
      left_lem (start before itblock f insn) _ _
        (λ t ok. try_alias db aliases (db.encodings (f.iencoding)) t ok)
        (decode_encoding-Guarded db (start before itblock f insn) (f.iencoding))
        (λ t ok. try_alias-Ends aliases _ t ok)

  module _ (before : Internal) (mode : MachineMode) (aliases : Bool) (itblock : ItBlock)
      (memory : ℕ → ℕ) (length : ℕ) (insn : Insn) {insn' : Insn} {itblock' : ItBlock} {ok : Bool}
      (valid : IsValid itblock) where
    unchanged :
        (insn1 : Insn)
        → returned (insn1, itblock, false) ≡ some (insn', itblock', ok)
        → Safe db mode memory length itblock insn' itblock' ok
    unchanged insn1 e =
        let same : itblock ≡ itblock' = cc in (subst IsValid same valid, inr (sym same), inl cc)

    after_fetch :
        (f : Fetched)
        → fetch db mode memory length ≡ some f
        → decode_fetched db before itblock aliases insn f ≡ some (insn', itblock', ok)
        → Safe db mode memory length itblock insn' itblock' ok
    unfolding Left
    after_fetch f fetched e =
        let (t, keeps, same_insn, same_itblock, result) =
          Leaves-Left _ _ _ (decode_fetched-Leaves before itblock aliases insn f) e in
        (
          subst IsValid same_itblock (keeps.still_valid valid),
          elim (Bool-cases (is_arm_mode mode)) [
            | inl arm ↦ inr (
                sym same_itblock
                ∙ keeps.arm_itblock (fetch-is_arm db mode memory length f fetched ∙ arm))
            | inr other ↦ inl other
          ],
          elim result [
            | inl no_ok ↦ inl no_ok
            | inr bits ↦
                inr (
                  f,
                  fetched,
                  bits,
                  ap (λ (i : Insn). i.length) (sym same_insn) ∙ keeps.same_length,
                )
          ],
        )

    -- For every state of the stack, mode and memory, and every valid IT block, with four conditions and
    -- an index below 4, if a call does not meet a step that C leaves undefined, it leaves a valid IT
    -- block, in A32 the same one. If it also succeeds, the word that it fetched has the fixed bits of
    -- the encoding that it is looked up to, and the instruction is as long as that word.
    pub amed_aarch32_decode_insn-IsValid :
        amed_aarch32_decode_insn db before mode aliases itblock memory length insn
          ≡ some (insn', itblock', ok)
        → IsValid itblock'
          × ((is_arm_mode mode ≡ false) ⊎ (itblock' ≡ itblock))
          × ((ok ≡ false) ⊎ Fits db mode memory length insn')
    unfolding amed_aarch32_decode_insn
    amed_aarch32_decode_insn-IsValid e = elim (Bool-cases (length == 0)) [
      | inl empty ↦ unchanged insn (rw empty at e)
      | inr more ↦
          (let e1 = rw more at e in
            elim (Option-cases (fetch db mode memory length)) [
              | inl short ↦ unchanged _ (rw short at e1)
              | inr (f, fetched) ↦ after_fetch f fetched (rw fetched at e1)
            ])
    ]
