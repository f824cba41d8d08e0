-- ===== src/Aarch64/Fields/Logimm.antt =====
-- The bit mask immediates of source/aarch64/decoder.c against ARM's description of them.
use amed.Base.{
  ℕ, zero, suc, max, ◌+◌, ◌-◌, ◌*◌, ◌/◌, ◌%◌, ◌^◌, ◌≤◌, ◌<◌, ◌≡◌, ◌⊎◌, inl, inr, refl, ap, ◌∙◌,
  arith, false, none, some, bit_or, ◌==◌, ==_iff, if◌then◌else◌, if-cases, field, all_below_sound,
}
use native.Mathlib.Nat.{
  mod-eq_of_lt, mod-lt, pow-suc, one-le-pow, pow-le-pow_right, div-mul-le_self,
}
use amed.Base.Bits.{bit_and-ones, zero-bit_or}
use amed.Utils.Binary.{get_hi_bit_pos, hi_bit_loop, ror64}
use amed.Utils.Binary.Ones.{replicate64_ones}
use amed.Utils.Binary.Rotate.{ror64_lem, rotated, rotated-lt}
use amed.Utils.Binary.Counts.{get_hi_bit_pos_lem}
use amed.Aarch64.Fields.{decode_logimm, logimm_element, lane_count, lanes}

-- `n` copies of an element of `d` bits.
unfoldable pub copies : ℕ → ℕ → ℕ → ℕ
copies zero d v = 0
copies (suc n) d v = v + 2 ^ d * copies n d v

-- N:NOT(imms), whose highest bit gives the size of the element.
abbrev pub size_bits : ℕ → ℕ
size_bits e = field 12 1 e * 2 ^ 6 + (63 - field 6 6 e)

-- An element of `2 ^ len` bits: a run of ones, one more than the low bits of imms say, that is
-- rotated by the low bits of immr.
abbrev pub element : ℕ → ℕ → ℕ
element len e =
    let ones = 2 ^ (field 6 6 e % 2 ^ len + 1) - 1 in
    let r = field 0 6 e % 2 ^ len in if r == 0 then ones else rotated (2 ^ len) r ones

or_test : (y : ℕ) → y < 64 → bit_or 64 y ≡ 64 + y
or_test y h = (==_iff _ _).0 (all_below_sound 64 (λ y. bit_or 64 y == 64 + y) y refl h)

joined : (n y : ℕ) → n < 2 → y < 64 → bit_or (n * 2 ^ 6) y ≡ n * 2 ^ 6 + y
joined zero y h lt = ground (arith, zero-bit_or y)
joined (suc zero) y h lt = or_test y lt
joined (suc (suc n)) y h lt = absurd (omega arith)

zero_or_pos : (r : ℕ) → (r ≡ 0) ⊎ (0 < r)
zero_or_pos zero = inl refl
zero_or_pos (suc r) = inr (omega arith)

compare_cases : (a b : ℕ) → (a ≡ b) ⊎ (a < b) ⊎ (b < a)
compare_cases a b = ground arith

copies-lanes : (n d v : ℕ) → v < 2 ^ d → lanes n d v ≡ copies n d v
unfolding lanes copies
copies-lanes zero d v h = refl
copies-lanes (suc n) d v h =
    ground (arith, copies-lanes n d v h, mod-eq_of_lt {n = v} {m = 2 ^ d} h)

size_le : (len : ℕ) → len ≤ 6 → 2 ^ len ≤ 64
size_le len h = pow-le-pow_right {n = 2} (omega arith) {i = len} {j = 6} h

not_zero : (r : ℕ) → 0 < r → (r == 0) ≡ false
not_zero r h = ground arith

ones-lt : (k d : ℕ) → k ≤ d → 2 ^ k - 1 < 2 ^ d
ones-lt k d h =
    omega (
      arith,
      pow-le-pow_right {n = 2} (omega arith) {i = k} {j = d} h,
      one-le-pow k 2 (omega arith),
    )

turned :
    (ones r d : ℕ)
    → r < d
    → d ≤ 64
    → ones < 2 ^ d
    → ror64 ones r d ≡ some (if r == 0 then ones else rotated d r ones)
unfolding ror64
turned ones r d lt le fits = elim (zero_or_pos r) [
  | inl z ↦ rw z refl
  | inr pos ↦ ror64_lem ones r d pos lt le fits ∙ rw (not_zero r pos) refl
]

logimm_element_lem :
    (len e : ℕ)
    → 1 ≤ len
    → len ≤ 6
    → logimm_element len (field 6 6 e) (field 0 6 e) ≡ some (element len e)
unfolding logimm_element
logimm_element_lem len e pos le =
    let small = size_le len le in
    let positive = one-le-pow len 2 (omega arith) in
    let low : field 6 6 e % 2 ^ len < 2 ^ len = mod-lt (field 6 6 e) positive in
    let r_low : field 0 6 e % 2 ^ len < 2 ^ len = mod-lt (field 0 6 e) positive in
    let k = field 6 6 e % 2 ^ len + 1 in
    let mask = (replicate64_ones len pos (omega arith)).0 in
    let ones = (replicate64_ones k (omega arith) (omega arith)).0 in
    rw (mask, bit_and-ones len (field 6 6 e), bit_and-ones len (field 0 6 e))
      (rw ones (
        turned (2 ^ k - 1) (field 0 6 e % 2 ^ len) (2 ^ len) r_low small
          (ones-lt k (2 ^ len) (omega arith))))

element-lt : (len e : ℕ) → len ≤ 6 → element len e < 2 ^ 2 ^ len
element-lt len e le =
    let positive = one-le-pow len 2 (omega arith) in
    let low : field 6 6 e % 2 ^ len < 2 ^ len = mod-lt (field 6 6 e) positive in
    let r_low : field 0 6 e % 2 ^ len < 2 ^ len = mod-lt (field 0 6 e) positive in
    let r = field 0 6 e % 2 ^ len in
    let fits = ones-lt (field 6 6 e % 2 ^ len + 1) (2 ^ len) (omega arith) in
    if-cases (λ (v : ℕ). v < 2 ^ 2 ^ len) (r == 0) (λ _. fits)
      (λ _. rotated-lt (2 ^ len) r (2 ^ (field 6 6 e % 2 ^ len + 1) - 1) (omega arith) fits)

-- The size of an element, where there is one.
count_lem :
    (len datasize : ℕ)
    → 1 ≤ len
    → len ≤ 6
    → datasize ≤ 64
    → lane_count len datasize ≡ some (datasize / 2 ^ len)
count_lem len datasize pos le h = ground (arith, div-mul-le_self datasize (2 ^ len))

-- The call for an element of `2 ^ len` bits.
decode_logimm-at :
    (e datasize len : ℕ)
    → datasize ≤ 64
    → 0 < datasize
    → get_hi_bit_pos (size_bits e) ≡ some len
    → 1 ≤ len
    → len ≤ 6
    → decode_logimm e datasize ≡ some (copies (datasize / 2 ^ len) (2 ^ len) (element len e))
unfolding decode_logimm
decode_logimm-at e datasize len h given hi pos le =
    rw
      (
        not_zero datasize given,
        joined (field 12 1 e) (63 - field 6 6 e) (omega arith) (omega arith),
        hi,
      )
      (rw (count_lem len datasize pos le h, logimm_element_lem len e pos le)
        (ap some
          (copies-lanes (datasize / 2 ^ len) (2 ^ len) (element len e) (element-lt len e le))))

pow_between : (x len r : ℕ) → 2 ^ len ≤ x → x < 2 ^ suc len → 2 ^ r ≤ x → x < 2 ^ suc r → r ≡ len
pow_between x len r a b c d = elim (compare_cases r len) [
  | inl eq ↦ eq
  | inr (inl lt) ↦
      absurd (omega (arith, pow-le-pow_right {n = 2} (omega arith) {i = suc r} {j = len} lt))
  | inr (inr gt) ↦
      absurd (omega (arith, pow-le-pow_right {n = 2} (omega arith) {i = suc len} {j = r} gt))
]

hi_at : (x len : ℕ) → 2 ^ len ≤ x → x < 2 ^ suc len → x < 2 ^ 32 → get_hi_bit_pos x ≡ some len
hi_at x len low high word =
    let (r, e, r_low, r_high) = get_hi_bit_pos_lem x (omega (arith, one-le-pow len 2)) word in
    e ∙ ap some (pow_between x len r low high r_low r_high)

few : (x : ℕ) → x < 2 → get_hi_bit_pos x ≡ some 0
unfolding get_hi_bit_pos hi_bit_loop
few zero h = refl
few (suc zero) h = refl
few (suc (suc x)) h = absurd (omega arith)

decode_logimm-refuses : (e datasize : ℕ) → size_bits e < 2 → decode_logimm e datasize ≡ none
unfolding decode_logimm
decode_logimm-refuses e datasize h =
    rw (joined (field 12 1 e) (63 - field 6 6 e) (omega arith) (omega arith), few (size_bits e) h)
      refl

len_le : (x len : ℕ) → x < 128 → 2 ^ len ≤ x → len ≤ 6
len_le x len small low = elim (compare_cases 6 len) [
  | inl eq ↦ omega (arith, eq)
  | inr (inl lt) ↦
      absurd (omega (arith, pow-le-pow_right {n = 2} (omega arith) {i = 7} {j = len} lt))
  | inr (inr gt) ↦ omega arith
]

-- For a given size of 1 to 64 bits and the position `len` of the highest bit of N:NOT(imms), or 0
-- where it has none: there is no immediate if `len` is 0, and otherwise it is made of as many copies
-- as fit of ARM's element of `2 ^ len` bits.
pub decode_logimm_lem :
    (e datasize len : ℕ)
    → 0 < datasize
    → datasize ≤ 64
    → 2 ^ len ≤ max 1 (size_bits e)
    → size_bits e < 2 ^ suc len
    → decode_logimm e datasize
      ≡ (if len == 0 then none else some (copies (datasize / 2 ^ len) (2 ^ len) (element len e)))
decode_logimm_lem e datasize zero given h low high = decode_logimm-refuses e datasize (omega arith)
decode_logimm_lem e datasize (suc k) given h low high =
    let small : size_bits e < 128 = omega arith in
    let positive = one-le-pow k 2 (omega arith) in
    let above : 2 ^ suc k ≤ size_bits e = omega (arith, pow-suc 2 k) in
    rw (not_zero (suc k) (omega arith)) (
      decode_logimm-at e datasize (suc k) h given
        (hi_at (size_bits e) (suc k) above high (omega arith)) (omega arith)
        (len_le (size_bits e) (suc k) small above))
