-- ===== src/Aarch64/Frame.antt =====
-- What the A64 decoder leaves as it was in its state.
pub mod Registers
pub mod Immediates
pub mod Memory
pub mod Outcome
pub mod Nodes
pub mod Entry
use amed.Base.{ℕ, ◌≡◌, refl, ◌∙◌, Option, none, some}
use amed.Aarch64.State.{Argument, Insn, Internal, Result, ◌andthen◌}

-- From `s` to `t` the opcode, the length and the mark of an undefined instruction stay.
pub record Frame (s t : Internal) : Type 0 where
  pub same_opcode : t.opcode ≡ s.opcode
  pub same_length : t.insn.length ≡ s.insn.length
  pub same_undefined : t.insn.is_undefined ≡ s.insn.is_undefined

pub Frame-refl : (s : Internal) → Frame s s
Frame-refl s = record { same_opcode = refl; same_length = refl; same_undefined = refl }

-- A state that differs in the other fields only.
pub Frame-flags :
    (s t : Internal)
    → t.opcode ≡ s.opcode
    → t.insn.length ≡ s.insn.length
    → t.insn.is_undefined ≡ s.insn.is_undefined
    → Frame s t
Frame-flags s t a d f = record { same_opcode = a; same_length = d; same_undefined = f }

pub Frame-trans : (s t u : Internal) → Frame s t → Frame t u → Frame s u
Frame-trans s t u f g = record {
  same_opcode = g.same_opcode ∙ f.same_opcode;
  same_length = g.same_length ∙ f.same_length;
  same_undefined = g.same_undefined ∙ f.same_undefined;
}

-- A result that C defines, with a state that has the frame of `s`.
unfoldable pub Kept : Internal → Result → Type 0
Kept s (Result.decoded t a) = Frame s t
Kept s (Result.failed t a) = Frame s t
Kept s Result.undefined = ⊥

pub decoded-Kept : (s : Internal) (a : Argument) → Kept s (Result.decoded s a)
unfolding Kept
decoded-Kept s a = Frame-refl s

pub failed-Kept : (s : Internal) (a : Argument) → Kept s (Result.failed s a)
unfolding Kept
failed-Kept s a = Frame-refl s

pub flags-Kept : (s t : Internal) (a : Argument) → Frame s t → Kept s (Result.decoded t a)
unfolding Kept
flags-Kept s t a f = f

pub Kept-trans : (s t : Internal) (r : Result) → Frame s t → Kept t r → Kept s r
unfolding Kept
Kept-trans s t (Result.decoded u a) f g = Frame-trans s t u f g
Kept-trans s t (Result.failed u a) f g = Frame-trans s t u f g
Kept-trans s t Result.undefined f g = g

pub andthen-Kept :
    (s : Internal) (r : Result) (k : Internal → Argument → Result)
    → Kept s r
    → ((t : Internal) (a : Argument) → Kept t (k t a))
    → Kept s (r andthen k)
unfolding Kept
andthen-Kept s (Result.decoded t a) k h f = Kept-trans s t (k t a) h (f t a)
andthen-Kept s (Result.failed t a) k h f = h
andthen-Kept s Result.undefined k h f = h
