-- ===== src/Aarch64/Frame/Outcome.antt =====
-- What the loops of the A64 decoder end in.
use amed.Base.{◌≡◌, refl, Bool, true, false, ◌&&◌, Option, some, if◌then◌else◌}
use amed.Base.Text.{◌>>=◌}
use amed.Aarch64.State.{Internal}
use amed.Aarch64.Frame.{Frame, Frame-flags, Frame-trans}

-- A call that C defines, whose state has the frame of `s`.
pub data Returns (s : Internal) : Option (Internal × Bool) → Type 0 where
  returns : (t : Internal) (ok : Bool) → Frame s t → Returns s (some (t, ok))

pub Returns-trans :
    (s t : Internal) (o : Option (Internal × Bool)) → Frame s t → Returns t o → Returns s o
Returns-trans s t _ f (returns u ok g) = returns u ok (Frame-trans s t u f g)

pub Returns-bind :
    (s : Internal) (o : Option (Internal × Bool)) (k : Internal × Bool → Option (Internal × Bool))
    → Returns s o
    → ((t : Internal) (ok : Bool) → Frame s t → Returns s (k (t, ok)))
    → Returns s (o >>= k)
Returns-bind s _ k (returns t ok f) h = h t ok f

-- The same of a call that has no result but the state.
pub data Ends (s : Internal) : Option Internal → Type 0 where
  ends : (t : Internal) → Frame s t → Ends s (some t)

pub Ends-trans : (s t : Internal) (o : Option Internal) → Frame s t → Ends t o → Ends s o
Ends-trans s t _ f (ends u g) = ends u (Frame-trans s t u f g)

-- One turn of the loop over the templates.
pub Ends-turn :
    (s : Internal) (o : Option (Internal × Bool)) (rest : Internal → Option Internal)
    → Returns s o
    → ((t : Internal) → Ends t (rest t))
    → Ends s (do (t, ok) ← o; if ok then some t else rest t)
Ends-turn s _ rest (returns t true f) h = ends t f
Ends-turn s _ rest (returns t false f) h = Ends-trans s t _ f (h t)

-- The result `b` for an encoding: the instruction is marked as undefined if it is false.
pub data Encoded (s : Internal) (b : Bool) : Option (Internal × Bool) → Type 0 where
  encoded :
      (t : Internal)
      → t.opcode ≡ s.opcode
      → t.insn.length ≡ s.insn.length
      → t.insn.is_undefined ≡ (if b then s.insn.is_undefined else true)
      → Encoded s b (some (t, b))

pub Ends-Encoded :
    (s s1 : Internal) (o : Option Internal)
    → Frame s s1
    → Ends s1 o
    → Encoded s true (do t ← o; some (t, true))
Ends-Encoded s s1 _ f (ends t g) =
    let h = Frame-trans s s1 t f g in encoded t (h.same_opcode) (h.same_length) (h.same_undefined)

pub Encoded-Returns :
    (s : Internal) (b : Bool) (o : Option (Internal × Bool))
    → b ≡ true
    → Encoded s b o
    → Returns s o
Encoded-Returns s true _ e (encoded t same_opcode same_length same_undefined) =
    returns t true (Frame-flags s t same_opcode same_length same_undefined)
Encoded-Returns s false _ e h = cc

pub and_left : (a b : Bool) → (a && b) ≡ true → a ≡ true
and_left true b h = refl
and_left false b h = h
