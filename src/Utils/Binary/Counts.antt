-- ===== src/Utils/Binary/Counts.antt =====
-- source/utils/binary.h: the loops of `get_hi_bit_pos`, `get_bit_count` and `get_bit_size`.
use mathlib.Core.Option
use native.Mathlib.Nat.{pow-suc, pow-succ', div-div-eq-div-mul}
use amed.Base.{
  ℕ, zero, suc, ◌+◌, ◌/◌, ◌%◌, ◌^◌, ◌≤◌, ◌<◌, ◌≡◌, ◌⊎◌, ◌∙◌, some, refl, arith, ap, sym, ◌==◌,
  if◌then◌else◌, inl, inr,
}
use amed.Utils.Binary.{
  hi_bit_loop, get_hi_bit_pos, count_loop, get_bit_count, size_loop, get_bit_size,
}

half_cases : (v : ℕ) → 0 < v → (v ≡ 1) ⊎ (0 < v / 2)
half_cases v h = grind arith

-- The position of the highest set bit, for a number of at most `n` digits.
abbrev top_bit : ℕ → ℕ → ℕ
top_bit zero v = 0
top_bit (suc n) v = if v / 2 == 0 then 0 else suc (top_bit n (v / 2))

top_bit_bounds : (n v : ℕ) → 0 < v → v < 2 ^ n → (2 ^ top_bit n v ≤ v) × (v < 2 ^ suc (top_bit n v))
top_bit_bounds zero v pos lt = absurd (omega arith)
top_bit_bounds (suc n) v pos lt = elim (half_cases v pos) [
  | inl one ↦ rw one (omega arith)
  | inr more ↦ ground (
    arith,
    pow-suc 2 n,
    pow-suc 2 (top_bit n (v / 2)),
    pow-suc 2 (suc (top_bit n (v / 2))),
    top_bit_bounds n (v / 2) more,
  )
]

hi_bit_loop-eq :
    (n v i r : ℕ) → 0 < v → v < 2 ^ n → hi_bit_loop (suc n) v i r ≡ some (i + top_bit n v)
unfolding hi_bit_loop
hi_bit_loop-eq zero v i r pos lt = absurd (omega arith)
hi_bit_loop-eq (suc n) v i r pos lt = elim (half_cases v pos) [
  | inl one ↦ rw one (ground arith)
  | inr more ↦
      ground
        (arith, pow-suc 2 n, hi_bit_loop-eq n (v / 2) (i + 1) (if v % 2 == 1 then i else r) more)
]

size_loop-eq :
    (n v r : ℕ) → 0 < v → v < 2 ^ n → size_loop (suc n) v r ≡ some (suc (r + top_bit n v))
unfolding size_loop
size_loop-eq zero v r pos lt = absurd (omega arith)
size_loop-eq (suc n) v r pos lt = elim (half_cases v pos) [
  | inl one ↦ rw one (ground arith)
  | inr more ↦ ground (arith, pow-suc 2 n, size_loop-eq n (v / 2) (r + 1) more)
]

-- For every 32-bit word that is not 0 the loop of `get_hi_bit_pos` ends, at the position `r` with
-- `2 ^ r ≤ v < 2 ^ (r + 1)`.
pub get_hi_bit_pos_lem :
    (v : ℕ)
    → 0 < v
    → v < 2 ^ 32
    → (r : ℕ) × (get_hi_bit_pos v ≡ some r) × (2 ^ r ≤ v) × (v < 2 ^ suc r)
unfolding get_hi_bit_pos
get_hi_bit_pos_lem v pos lt =
    let bounds = top_bit_bounds 32 v pos lt in
    (top_bit 32 v, ground (arith, hi_bit_loop-eq 32 v 0 0 pos lt), bounds.0, bounds.1)

-- For every 32-bit word, 0 included, `get_bit_size` gives a result where `get_hi_bit_pos` does, one more than the position of the highest bit.
pub get_bit_size-get_hi_bit_pos :
    (v : ℕ) → v < 2 ^ 32 → get_bit_size v ≡ Option.map suc (get_hi_bit_pos v)
unfolding get_bit_size get_hi_bit_pos
get_bit_size-get_hi_bit_pos zero lt = unfold hi_bit_loop in refl
get_bit_size-get_hi_bit_pos (suc v) lt = ground (
  arith,
  size_loop-eq 32 (suc v) 0 (omega arith) lt,
  hi_bit_loop-eq 32 (suc v) 0 0 (omega arith) lt,
)

-- How many of the bits below position `n` are set.
abbrev pub bits_set : ℕ → ℕ → ℕ
bits_set zero v = 0
bits_set (suc n) v = bits_set n v + v / 2 ^ n % 2

bits_set-suc : (n v : ℕ) → bits_set (suc n) v ≡ v % 2 + bits_set n (v / 2)
bits_set-suc zero v = omega arith
bits_set-suc (suc n) v =
    let halved : v / 2 ^ suc n ≡ v / 2 / 2 ^ n =
      ap (λ (t : ℕ). v / t) (pow-succ' 2 n) ∙ sym (div-div-eq-div-mul v 2 (2 ^ n)) in
    omega (arith, bits_set-suc n v, ap (λ (t : ℕ). t % 2) halved)

count_loop-eq : (n v r : ℕ) → v < 2 ^ n → count_loop (suc n) v r ≡ some (r + bits_set n v)
unfolding count_loop
count_loop-eq zero v r lt = ground arith
count_loop-eq (suc n) v r lt =
    ground (arith, pow-suc 2 n, bits_set-suc n v, count_loop-eq n (v / 2) (r + v % 2))

-- For every 32-bit word the loop of `get_bit_count` ends, with the number of the 32 positions at which
-- the word has a set bit.
pub get_bit_count_lem : (v : ℕ) → v < 2 ^ 32 → get_bit_count v ≡ some (bits_set 32 v)
unfolding get_bit_count
get_bit_count_lem v lt = ground (arith, count_loop-eq 32 v 0 lt)
