-- ===== src/X86/Moves.antt =====
-- How far the x86 decoder has read: what an operation does to the position, and to the record of the
-- bytes that it took.
pub mod Steps
pub mod Prefix
pub mod Legacy
pub mod Modrm
pub mod Arguments
pub mod Immediates
pub mod Nodes
pub mod Entry
pub mod Whole
use amed.Base.{
  ℕ, ◌+◌, ◌≤◌, ◌<◌, ◌≡◌, ◌⊎◌, inl, inr, refl, arith, ap, ◌∙◌, Bool, List, [], ◌∷◌, ◌++◌, length,
  max, suc,
}
use amed.X86.State.{Bytecode, Internal}

-- The number of bytes in a record.
abbrev pub recorded : List Bytecode → ℕ
recorded [] = 0
recorded (c ∷ cs) = c.length + recorded cs

pub recorded-append : (xs ys : List Bytecode) → recorded (xs ++ ys) ≡ recorded xs + recorded ys
recorded-append [] ys = omega arith
recorded-append (c ∷ cs) ys = omega (arith, recorded-append cs ys)

-- From `s` to `t` the position only grows, and at most to the end of the bytes; the record grows
-- within its 15 entries, and, unless it is full, by as many bytes as the position.
pub record Moves (s t : Internal) : Type 0 where
  pub same_nb : t.nb ≡ s.nb
  pub grows : s.pc ≤ t.pc
  pub within : t.pc ≤ max s.pc s.nb
  pub more : length s.insn.bytecodes ≤ length t.insn.bytecodes
  pub room : length t.insn.bytecodes ≤ max 15 (length s.insn.bytecodes)
  pub accounts :
      (15 ≤ length t.insn.bytecodes)
      ⊎ (recorded t.insn.bytecodes + s.pc ≡ recorded s.insn.bytecodes + t.pc)

pub Moves-refl : (s : Internal) → Moves s s
Moves-refl s = record {
  same_nb = refl;
  grows = omega arith;
  within = omega arith;
  more = omega arith;
  room = omega arith;
  accounts = inr (omega arith);
}

pub Moves-trans : {s t u : Internal} → Moves s t → Moves t u → Moves s u
Moves-trans {s} {t} {u} a b = record {
  same_nb = omega arith;
  grows = omega arith;
  within = omega arith;
  more = omega arith;
  room = omega arith;
  accounts = omega arith;
}

-- A state that differs from `s` in other parts only.
pub record Quiet (s t : Internal) : Type 0 where
  pub same_pc : t.pc ≡ s.pc
  pub same_nb : t.nb ≡ s.nb
  pub same_bytecodes : t.insn.bytecodes ≡ s.insn.bytecodes

pub quiet :
    {s t : Internal} → t.pc ≡ s.pc → t.nb ≡ s.nb → t.insn.bytecodes ≡ s.insn.bytecodes → Quiet s t
quiet p n b = record { same_pc = p; same_nb = n; same_bytecodes = b }

pub Quiet-trans : {s t u : Internal} → Quiet s t → Quiet t u → Quiet s u
Quiet-trans a b = record {
  same_pc = b.same_pc ∙ a.same_pc;
  same_nb = b.same_nb ∙ a.same_nb;
  same_bytecodes = b.same_bytecodes ∙ a.same_bytecodes;
}

pub Quiet-Moves : {s t : Internal} → Quiet s t → Moves s t
Quiet-Moves {s} {t} q = record {
  same_nb = q.same_nb;
  grows = omega arith;
  within = omega arith;
  more = omega (arith, ap length q.same_bytecodes);
  room = omega (arith, ap length q.same_bytecodes);
  accounts = inr (omega (arith, ap recorded q.same_bytecodes));
}

-- The state of a result has moved.
pub record Kept (s : Internal) (r : Internal × Bool) : Type 0 where
  pub moves : Moves s r.0

pub unmoved : (s : Internal) {ok : Bool} → Kept s (s, ok)
unmoved s = record { moves = Moves-refl s }

pub quietly : {s t : Internal} {ok : Bool} → Quiet s t → Kept s (t, ok)
quietly q = record { moves = Quiet-Moves q }

-- What follows a move.
pub after : {s t : Internal} {r : Internal × Bool} → Moves s t → Kept t r → Kept s r
after m k = record { moves = Moves-trans m k.moves }
