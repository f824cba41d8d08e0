-- ===== src/Utils/Binary/Ones.antt =====
-- source/utils/binary.h: `replicate` and `replicate64` of a single bit.
use amed.Base.{
  ℕ, ◌||◌, ◌-◌, ◌^◌, ◌≤◌, ◌<◌, Bool, true, ◌&&◌, Option, some, none, ◌==◌, ◌≡◌, refl, arith,
  all_below_sound,
}
use amed.Utils.Binary.{replicate, replicate64}

abbrev gives : Option ℕ → ℕ → Bool
gives none n = Bool.false
gives (some m) n = m == n

gives_eq : (o : Option ℕ) (n : ℕ) → gives o n ≡ true → o ≡ some n
gives_eq none n h = cc
gives_eq (some m) n h = ground arith

abbrev ones_test : (ℕ → ℕ → Option ℕ) → ℕ → Bool
ones_test f c = (c == 0) || (gives (f 1 c) (2 ^ c - 1) && gives (f 0 c) 0)

ones_test-eq :
    (f : ℕ → ℕ → Option ℕ) (c : ℕ)
    → 0 < c
    → ones_test f c ≡ true
    → (f 1 c ≡ some (2 ^ c - 1)) × (f 0 c ≡ some 0)
ones_test-eq f c pos h =
    let given : (gives (f 1 c) (2 ^ c - 1) ≡ true) × (gives (f 0 c) 0 ≡ true) = ground arith in
    (gives_eq (f 1 c) (2 ^ c - 1) given.0, gives_eq (f 0 c) 0 given.1)

-- For every count from 1 to 32, `replicate` of the bit 1 gives so many ones, and of the bit 0 it
-- gives 0.
pub replicate_ones :
    (count : ℕ)
    → 0 < count
    → count ≤ 32
    → (replicate 1 count ≡ some (2 ^ count - 1)) × (replicate 0 count ≡ some 0)
unfolding replicate
replicate_ones count pos le =
    ones_test-eq replicate count pos
      (all_below_sound 33 (ones_test replicate) count refl (omega arith))

-- For every count from 1 to 64, `replicate64` of the bit 1 gives so many ones, and of the bit 0 it
-- gives 0.
pub replicate64_ones :
    (count : ℕ)
    → 0 < count
    → count ≤ 64
    → (replicate64 1 count ≡ some (2 ^ count - 1)) × (replicate64 0 count ≡ some 0)
unfolding replicate64
replicate64_ones count pos le =
    ones_test-eq replicate64 count pos
      (all_below_sound 65 (ones_test replicate64) count refl (omega arith))
