-- ===== src/Aarch32/Frame/Lists.antt =====
-- The lists of source/aarch32/decoder.c, and what they leave as it was.
use amed.Base.{ℕ, ◌≡◌, refl, List, length, leb, if-cases, some-cases}
use amed.Aarch32.Database.{Any, ListNode, VectorListNode, Database}
use amed.Aarch32.State.{Argument, Internal}
use amed.Aarch32.Fields.{decode_any, value_of}
use amed.Aarch32.Arguments.Registers.{decode_arg_reg}
use amed.Aarch32.Arguments.Memory.{decode_anynymous_immreg}
use amed.Aarch32.Arguments.Lists.{
  set_list, decode_arg_slist, decode_arg_glist, base_list, decode_arg_fslist, decode_arg_fdlist,
  vector_list, decode_arg_vlist,
}
use amed.Aarch32.Frame.{
  Frame, Kept, failed-Kept, undefined-Kept, Kept-trans, andthen-Kept, read-Kept,
}
use amed.Aarch32.Frame.Registers.{decode_arg_reg-Kept}
use amed.Aarch32.Frame.Memory.{decode_anynymous_immreg-Kept}

set_list-Kept :
    (s t : Internal) (a : Argument) (registers : List ℕ)
    → Frame s t
    → Kept s (set_list t a registers)
unfolding set_list
set_list-Kept s t a registers f =
    Kept-trans s t _ f
      (if-cases (Kept t) (leb (length registers) 32) (λ _. read-Kept t _) (λ _. undefined-Kept t))

flags-Frame :
    (s t : Internal)
    → t.opcode ≡ s.opcode
    → t.insn.length ≡ s.insn.length
    → t.is_arm ≡ s.is_arm
    → t.itblock ≡ s.itblock
    → Frame s t
flags-Frame s t p q r e = record {
  same_opcode = p;
  same_length = q;
  same_arm = r;
  same_itblock = e;
}

base_list-Kept :
    (limit : ℕ) (s : Internal) (a : Argument) (count : ℕ) → Kept s (base_list limit s a count)
unfolding base_list
base_list-Kept limit s a count = set_list-Kept s _ _ _ (flags-Frame s _ refl refl refl refl)

vector_list-Kept :
    (s : Internal) (a : Argument) (count inc : ℕ) → Kept s (vector_list s a count inc)
unfolding vector_list
vector_list-Kept s a count inc = set_list-Kept s _ _ _ (flags-Frame s _ refl refl refl refl)

module _ (db : Database) (s : Internal) (a : Argument) where
  pub decode_arg_slist-Kept : (n : Any) → Kept s (decode_arg_slist db s a n)
  unfolding decode_arg_slist
  decode_arg_slist-Kept n = set_list-Kept s _ _ _ (flags-Frame s _ refl refl refl refl)

  pub decode_arg_glist-Kept : (n : Any) → Kept s (decode_arg_glist db s a n)
  unfolding decode_arg_glist
  decode_arg_glist-Kept n = set_list-Kept s _ _ _ (flags-Frame s _ refl refl refl refl)

  pub decode_arg_fslist-Kept : (n : ListNode) → Kept s (decode_arg_fslist db s a n)
  unfolding decode_arg_fslist
  decode_arg_fslist-Kept n =
      andthen-Kept s (decode_arg_reg db s a (n.base)) _ (decode_arg_reg-Kept db s a (n.base))
        (λ t b.
          some-cases (Kept t) (value_of (decode_any db (t.opcode) (n.count))) (λ _. failed-Kept t b)
            (λ count _. base_list-Kept _ t b count))

  pub decode_arg_fdlist-Kept : (n : ListNode) → Kept s (decode_arg_fdlist db s a n)
  unfolding decode_arg_fdlist
  decode_arg_fdlist-Kept n =
      andthen-Kept s (decode_arg_reg db s a (n.base)) _ (decode_arg_reg-Kept db s a (n.base))
        (λ t b.
          some-cases (Kept t) (value_of (decode_any db (t.opcode) (n.count))) (λ _. failed-Kept t b)
            (λ count _. base_list-Kept _ t b _))

  pub decode_arg_vlist-Kept : (n : VectorListNode) → Kept s (decode_arg_vlist db s a n)
  unfolding decode_arg_vlist
  decode_arg_vlist-Kept n =
      andthen-Kept s (decode_anynymous_immreg db s a (n.base)) _
        (decode_anynymous_immreg-Kept db s a (n.base))
        (λ t b.
          some-cases (Kept t) (value_of (decode_any db (t.opcode) (n.count))) (λ _. failed-Kept t b)
            (λ count _.
              some-cases (Kept t) (value_of (decode_any db (t.opcode) (n.inc)))
                (λ _. failed-Kept t b) (λ inc _. vector_list-Kept t b count inc)))
