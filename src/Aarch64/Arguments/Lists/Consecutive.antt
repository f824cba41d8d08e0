-- ===== src/Aarch64/Arguments/Lists/Consecutive.antt =====
-- The registers of a list of source/aarch64/decoder.c.
use amed.Base.{
  ℕ, zero, suc, ◌+◌, ◌-◌, ◌%◌, ◌^◌, ◌≤◌, ◌<◌, ◌≡◌, ◌⊎◌, inl, inr, refl, sym, subst, ap, arith, some,
  List, [], ◌∷◌, ◌==◌, if◌then◌else◌, some-cases, u16,
}
use amed.Aarch64.Names.{Symbol, register_v0, register_v31, register_z0, register_z31}
use amed.Aarch64.Database.{ListNode, Database}
use amed.Aarch64.State.{Argument, Internal, Result, ◌andthen◌}
use amed.Aarch64.Arguments.Memory.{decode_anynymous_immreg}
use amed.Aarch64.Arguments.Lists.{list_bounds, registers_loop, set_list, decode_arg_vlist}

-- `n` registers of a class of 32 from the one at place `k` on, the first after the last.
pub consecutive : ℕ → ℕ → ℕ → List ℕ
consecutive zero first k = []
consecutive (suc n) first k = (first + k % 32) ∷ consecutive n first (suc k)

-- A register of a class that has lists is one of the 32 of it.
abbrev pub IsClass : Database → Type 0
IsClass db =
    (r first last : ℕ)
    → list_bounds ((db.reginfo r).kind) ≡ some (first, last)
    → (first ≤ r) × (r ≤ last)

next_lem :
    (first k : ℕ)
    → first < 2 ^ 15
    → (if u16 (first + k % 32 + 1) == 1 + (first + 31) then first else u16 (first + k % 32 + 1))
      ≡ first + suc k % 32
next_lem first k h = ground arith

registers_loop_lem :
    (n first k : ℕ)
    → first < 2 ^ 15
    → registers_loop n (first + k % 32) first (first + 31) ≡ consecutive n first k
unfolding registers_loop consecutive
registers_loop_lem zero first k h = refl
registers_loop_lem (suc n) first k h =
    ap (λ (rs : List ℕ). (first + k % 32) ∷ rs)
      (rw (next_lem first k h) (registers_loop_lem n first (suc k) h))

-- The two classes.
bounds_lem :
    (symbol : Symbol) (first last : ℕ)
    → list_bounds symbol ≡ some (first, last)
    → ((first ≡ register_v0) ⊎ (first ≡ register_z0)) × (last ≡ first + 31)
bounds_lem Symbol.vecreg first last h =
    let low : register_v0 ≡ first = cc in
    let high : register_v31 ≡ last = cc in (inl (sym low), omega (arith, low, high))
bounds_lem Symbol.svereg first last h =
    let low : register_z0 ≡ first = cc in
    let high : register_z31 ≡ last = cc in (inr (sym low), omega (arith, low, high))
bounds_lem _ first last h = absurd cc

abbrev pub Consecutive : Argument → ℕ → Type 0
Consecutive a count =
    (first : ℕ) × (((first ≡ register_v0) ⊎ (first ≡ register_z0))
      × (first ≤ a.reg_value)
      × (a.reg_value ≤ first + 31)
      × (a.list_registers ≡ consecutive count first (a.reg_value - first)))

-- An argument that is decoded is such a list.
abbrev pub DecodesList : ℕ → Result → Type 0
DecodesList count (Result.decoded t b) = Consecutive b count
DecodesList count _ = Unit {0}

module _ (db : Database) (classes : IsClass db) (n : ListNode) where
  filled :
      (a : Argument) (first last : ℕ)
      → list_bounds ((db.reginfo (a.reg_value)).kind) ≡ some (first, last)
      → ((first ≡ register_v0) ⊎ (first ≡ register_z0))
        × (first ≤ a.reg_value)
        × (a.reg_value ≤ first + 31)
        × (registers_loop (n.count) (a.reg_value) first last
            ≡ consecutive (n.count) first (a.reg_value - first))
  filled a first last e =
      let (which, top) = bounds_lem _ first last e in
      let (low, high) = classes (a.reg_value) first last e in
      let small : first < 2 ^ 15 = ground (arith, which) in
      let place : first + (a.reg_value - first) % 32 ≡ a.reg_value = omega (arith, top) in
      (
        which,
        low,
        omega (arith, top),
        subst
            (λ (r : ℕ).
              registers_loop (n.count) r first last
              ≡ consecutive (n.count) first (a.reg_value - first))
            place (rw top (registers_loop_lem (n.count) first (a.reg_value - first) small)),
      )

  set_list-DecodesList : (s : Internal) (a : Argument) → DecodesList (n.count) (set_list db n s a)
  unfolding set_list
  set_list-DecodesList s a =
      some-cases (DecodesList (n.count)) (list_bounds ((db.reginfo (a.reg_value)).kind)) (λ _. tt)
        (λ (first, last) e. (first, filled a first last e))

  andthen-DecodesList :
      (r : Result) (k : Internal → Argument → Result)
      → ((t : Internal) (b : Argument) → DecodesList (n.count) (k t b))
      → DecodesList (n.count) (r andthen k)
  andthen-DecodesList (Result.decoded t b) k h = h t b
  andthen-DecodesList (Result.failed t b) k h = tt
  andthen-DecodesList Result.undefined k h = tt

  -- If only the registers V0 to V31 and Z0 to Z31 are said to be in the two classes that have lists,
  -- a list that is decoded has as many registers as its node says, from the base on one after the
  -- other in the base's class, where the first follows the last.
  pub decode_arg_vlist-DecodesList :
      (s : Internal) (a : Argument) → DecodesList (n.count) (decode_arg_vlist db s a n)
  unfolding decode_arg_vlist
  decode_arg_vlist-DecodesList s a =
      andthen-DecodesList (decode_anynymous_immreg db s a (n.base)) _
        (λ t b. set_list-DecodesList t b)
