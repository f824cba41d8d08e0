-- ===== src/Aarch32/Frame.antt =====
-- What the AArch32 decoder leaves as it was in its state, and where C defines it.
pub mod Registers
pub mod Immediates
pub mod Memory
pub mod Lists
pub mod Nodes
pub mod Templates
pub mod Entry
pub mod Defined
pub mod Readable
pub mod Operands
pub mod Returned
use amed.Base.{◌≡◌, refl, ◌∙◌}
use amed.Aarch32.State.{Argument, Internal, Result, ◌andthen◌}

-- From `s` to `t` the opcode, the length, the instruction set and the IT block stay.
pub record Frame (s t : Internal) : Type 0 where
  pub same_opcode : t.opcode ≡ s.opcode
  pub same_length : t.insn.length ≡ s.insn.length
  pub same_arm : t.is_arm ≡ s.is_arm
  pub same_itblock : t.itblock ≡ s.itblock

pub Frame-refl : (s : Internal) → Frame s s
Frame-refl s = record {
  same_opcode = refl;
  same_length = refl;
  same_arm = refl;
  same_itblock = refl;
}

pub Frame-trans : (s t u : Internal) → Frame s t → Frame t u → Frame s u
Frame-trans s t u f g = record {
  same_opcode = g.same_opcode ∙ f.same_opcode;
  same_length = g.same_length ∙ f.same_length;
  same_arm = g.same_arm ∙ f.same_arm;
  same_itblock = g.same_itblock ∙ f.same_itblock;
}

-- A result whose state has the frame of `s`, if C defines it.
unfoldable pub Kept : Internal → Result → Type 0
Kept s (Result.decoded t a) = Frame s t
Kept s (Result.failed t a) = Frame s t
Kept s Result.undefined = Unit {0}

pub decoded-Kept :
    (s t : Internal) (a : Argument)
    → t.opcode ≡ s.opcode
    → t.insn.length ≡ s.insn.length
    → t.is_arm ≡ s.is_arm
    → t.itblock ≡ s.itblock
    → Kept s (Result.decoded t a)
unfolding Kept
decoded-Kept s t a p q r e = record {
  same_opcode = p;
  same_length = q;
  same_arm = r;
  same_itblock = e;
}

pub stopped-Kept :
    (s t : Internal) (a : Argument)
    → t.opcode ≡ s.opcode
    → t.insn.length ≡ s.insn.length
    → t.is_arm ≡ s.is_arm
    → t.itblock ≡ s.itblock
    → Kept s (Result.failed t a)
unfolding Kept
stopped-Kept s t a p q r e = record {
  same_opcode = p;
  same_length = q;
  same_arm = r;
  same_itblock = e;
}

-- A result that only reads the state.
pub read-Kept : (s : Internal) (a : Argument) → Kept s (Result.decoded s a)
unfolding Kept
read-Kept s a = Frame-refl s

pub failed-Kept : (s : Internal) (a : Argument) → Kept s (Result.failed s a)
unfolding Kept
failed-Kept s a = Frame-refl s

pub undefined-Kept : (s : Internal) → Kept s Result.undefined
unfolding Kept
undefined-Kept s = tt

pub Kept-trans : (s t : Internal) (r : Result) → Frame s t → Kept t r → Kept s r
unfolding Kept
Kept-trans s t (Result.decoded u a) f g = Frame-trans s t u f g
Kept-trans s t (Result.failed u a) f g = Frame-trans s t u f g
Kept-trans s t Result.undefined f g = g

pub andthen-Kept :
    (s : Internal) (r : Result) (k : Internal → Argument → Result)
    → Kept s r
    → ((t : Internal) (a : Argument) → Kept t (k t a))
    → Kept s (r andthen k)
unfolding Kept
andthen-Kept s (Result.decoded t a) k h f = Kept-trans s t (k t a) h (f t a)
andthen-Kept s (Result.failed t a) k h f = h
andthen-Kept s Result.undefined k h f = h
