-- ===== src/Aarch32/It/Expansion.antt =====
-- `decode_it` of source/aarch32/decoder.c against the mask of an IT instruction.
use amed.Base.{
  ℕ, zero, suc, ◌+◌, ◌*◌, ◌%◌, ◌^◌, ◌<◌, ◌≢◌, ◌≡◌, refl, subst, arith, Bool, true, false, ◌||◌,
  List, [], ◌∷◌, bit_xor, ◌==◌, if◌then◌else◌, u8, flag, length,
}
use amed.Base.Bits.{bit_and-ones}
use amed.Aarch64.Names.{condition_al}
use amed.Aarch32.Names.{ItOp, condition_none}
use amed.Aarch32.State.{Internal}
use amed.Aarch32.It.{get_it_op_from_mask, it_conditions, as_bytes, decode_it, is_insn_in_it_block}

-- The bits above the lowest one that is set, from the top of `w` bits: `true` stands for E.
unfoldable pub marks : ℕ → ℕ → List Bool
marks zero mask = []
marks (suc w) mask =
    let rest = marks w (mask % 2 ^ w) in if mask % 2 ^ w == 0 then [] else flag w mask ∷ rest

-- The letters after the first T.
unfoldable pub letters : ItOp → List Bool
letters ItOp.none = []
letters ItOp.ttt = false ∷ false ∷ false ∷ []
letters ItOp.tt = false ∷ false ∷ []
letters ItOp.tte = false ∷ false ∷ true ∷ []
letters ItOp.t = false ∷ []
letters ItOp.tet = false ∷ true ∷ false ∷ []
letters ItOp.te = false ∷ true ∷ []
letters ItOp.tee = false ∷ true ∷ true ∷ []
letters ItOp.ett = true ∷ false ∷ false ∷ []
letters ItOp.et = true ∷ false ∷ []
letters ItOp.ete = true ∷ false ∷ true ∷ []
letters ItOp.e = true ∷ []
letters ItOp.eet = true ∷ true ∷ false ∷ []
letters ItOp.ee = true ∷ true ∷ []
letters ItOp.eee = true ∷ true ∷ true ∷ []

-- `n` conditions: one for each mark, and AL for all further ones.
unfoldable pub conditions_of : ℕ → ℕ → List Bool → List ℕ
conditions_of zero first bs = []
conditions_of (suc n) first [] = condition_al ∷ conditions_of n first []
conditions_of (suc n) first (b ∷ bs) =
    u8 (if b then bit_xor first 1 else first) ∷ conditions_of n first bs

abbrev pub Expands : ℕ → ℕ → Type 0
Expands first mask =
    mask ≢ 0
    → ((it_conditions mask first).0 ≡ suc (length (marks 4 mask)))
      × (as_bytes ((it_conditions mask first).1) ≡ u8 first ∷ conditions_of 3 first (marks 4 mask))
      × (letters (get_it_op_from_mask mask) ≡ marks 4 mask)

abbrev number : Bool → ℕ
number b = if b then 1 else 0

-- A mask of the given bits, the highest first.
abbrev mask_of : Bool → Bool → Bool → Bool → ℕ
mask_of a b c d = number a * 8 + number b * 4 + number c * 2 + number d

mask_of-Expands : (first : ℕ) (a b c d : Bool) → Expands first (mask_of a b c d)
unfolding it_conditions get_it_op_from_mask conditions_of marks letters
mask_of-Expands first false false false false = λ n. absurd (n refl)
mask_of-Expands first false false false true = λ _. (refl, refl, refl)
mask_of-Expands first false false true false = λ _. (refl, refl, refl)
mask_of-Expands first false false true true = λ _. (refl, refl, refl)
mask_of-Expands first false true false false = λ _. (refl, refl, refl)
mask_of-Expands first false true false true = λ _. (refl, refl, refl)
mask_of-Expands first false true true false = λ _. (refl, refl, refl)
mask_of-Expands first false true true true = λ _. (refl, refl, refl)
mask_of-Expands first true false false false = λ _. (refl, refl, refl)
mask_of-Expands first true false false true = λ _. (refl, refl, refl)
mask_of-Expands first true false true false = λ _. (refl, refl, refl)
mask_of-Expands first true false true true = λ _. (refl, refl, refl)
mask_of-Expands first true true false false = λ _. (refl, refl, refl)
mask_of-Expands first true true false true = λ _. (refl, refl, refl)
mask_of-Expands first true true true false = λ _. (refl, refl, refl)
mask_of-Expands first true true true true = λ _. (refl, refl, refl)

bits_of_mask :
    (mask : ℕ) → mask < 16 → mask_of (flag 3 mask) (flag 2 mask) (flag 1 mask) (flag 0 mask) ≡ mask
bits_of_mask mask h = ground arith

it_conditions_lem : (first mask : ℕ) → mask < 16 → Expands first mask
it_conditions_lem first mask small =
    subst (Expands first) (bits_of_mask mask small) (mask_of-Expands first _ _ _ _)

-- For every state, and every opcode whose low four bits are not all 0, an IT instruction begins a
-- block at its first instruction. The bits of the mask above its lowest one are the letters of the
-- `it_op` after the first T, and decide the conditions of the block: the token of the first
-- argument, then for each bit that number, with its lowest bit inverted if the bit is set, then AL up to
-- four. The block has one instruction more than there are such bits. In a block, the instruction has
-- no condition and is marked as unpredictable, and outside it has AL and the mark stays as it was.
pub decode_it-marks :
    (s : Internal)
    → s.opcode % 16 ≢ 0
    → let t = decode_it s in
      let bits = marks 4 (s.opcode % 16) in
      (t.itblock.is_in ≡ true)
      × (t.itblock.index ≡ 0)
      × (t.itblock.count ≡ suc (length bits))
      × (t.insn.it_insn_count ≡ suc (length bits))
      × (t.itblock.conditions
          ≡ u8 (s.insn.arguments 0).token ∷ conditions_of 3 (s.insn.arguments 0).token bits)
      × (letters t.insn.it_op ≡ bits)
      × (t.insn.condition ≡ (if is_insn_in_it_block s then condition_none else condition_al))
      × (t.insn.is_unpredictable ≡ is_insn_in_it_block s || s.insn.is_unpredictable)
unfolding decode_it is_insn_in_it_block
decode_it-marks s h =
    let (counts, conditions, ops) =
      it_conditions_lem ((s.insn.arguments 0).token) (s.opcode % 16) (omega arith) h in
    rw (bit_and-ones 4 (s.opcode)) (refl, refl, counts, counts, conditions, ops, refl, refl)
