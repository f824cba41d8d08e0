-- ===== src/Utils/Binary.antt =====
-- source/utils/binary.h. A shift by the width of its operand or more, which C leaves undefined,
-- is `none`; so is a loop that runs out of its 32 rounds.
pub mod Ones
pub mod Rotate
pub mod Extend
pub mod Masked
pub mod Counts
use amed.Base.{
  ℕ, zero, suc, ◌+◌, ◌-◌, ◌*◌, ◌/◌, ◌%◌, ◌^◌, bit_and, bit_or, Bool, ◌&&◌, ◌||◌, Option, none, some,
  ltb, leb, ◌==◌, if◌then◌else◌, u32, flag, bit,
}
use amed.Base.Int.{ℤ, signed}

-- `bitvalue` is the pattern of an `int32_t`, which is negated before it is cast.
unfoldable pub replicate : ℕ → ℕ → Option ℕ
replicate bitvalue count =
    let result = (2 ^ 32 - bitvalue) % 2 ^ 32 in
    if count == 0 || ltb 32 count then none else some (result / 2 ^ (32 - count))

unfoldable pub replicate64 : ℕ → ℕ → Option ℕ
replicate64 bitvalue count =
    let result =
      if ltb bitvalue (2 ^ 31) then (2 ^ 64 - bitvalue) % 2 ^ 64 else 2 ^ 32 - bitvalue in
    if count == 0 || ltb 64 count then none else some (result / 2 ^ (64 - count))

unfoldable pub ror : ℕ → ℕ → Option ℕ
ror value rotation =
    if rotation == 0 || leb 32 rotation
    then none
    else some (bit_or (value / 2 ^ rotation) (value * 2 ^ (32 - rotation) % 2 ^ 32))

-- The shift count of the second half is `datasize - rotation`.
unfoldable pub ror64 : ℕ → ℕ → ℕ → Option ℕ
ror64 value rotation datasize =
    if rotation == 0
    then some value
    else if leb 64 rotation || ltb datasize rotation || leb 64 (datasize - rotation)
    then none
    else elim (replicate64 1 datasize) [
      | none ↦ none
      | some ones ↦ some (
          bit_and (bit_or (value / 2 ^ rotation) (value * 2 ^ (datasize - rotation) % 2 ^ 64)) ones)
    ]

-- The bits from `i` up are set when bit `i` is set; the `assert` is the test on `i`.
unfoldable pub sign_extend : ℕ → ℕ → Option ℤ
sign_extend value i =
    if leb 32 i
    then none
    else some
        (signed 32 (if flag i value then bit_or value ((2 ^ 32 - 1) * 2 ^ i % 2 ^ 32) else value))

unfoldable pub sign_extend64 : ℕ → ℕ → Option ℤ
sign_extend64 value i =
    if leb 64 i
    then none
    else some
        (signed 64 (if flag i value then bit_or value ((2 ^ 64 - 1) * 2 ^ i % 2 ^ 64) else value))

-- The `while` of `get_masked_value`.
unfoldable pub masked_loop : ℕ → ℕ → ℕ → ℕ → ℕ → Option ℕ
masked_loop zero value mask pos result = none
masked_loop (suc fuel) value mask pos result =
    let taken =
      masked_loop fuel (value / 2) (mask / 2) (pos + 1) (bit_or result (value % 2 * 2 ^ pos)) in
    let skipped = masked_loop fuel (value / 2) (mask / 2) pos result in
    if mask == 0
    then some result
    else if value == 0
    then some result
    else if mask % 2 == 1
    then taken
    else skipped

unfoldable pub get_masked_value : ℕ → ℕ → Option ℕ
get_masked_value value mask = masked_loop 33 (bit_and value mask) mask 0 0

unfoldable pub hi_bit_loop : ℕ → ℕ → ℕ → ℕ → Option ℕ
hi_bit_loop zero value i result = none
hi_bit_loop (suc fuel) value i result =
    let rest = hi_bit_loop fuel (value / 2) (i + 1) (if value % 2 == 1 then i else result) in
    if value == 0 then some result else rest

unfoldable pub get_hi_bit_pos : ℕ → Option ℕ
get_hi_bit_pos value = hi_bit_loop 33 value 0 0

unfoldable pub count_loop : ℕ → ℕ → ℕ → Option ℕ
count_loop zero value result = none
count_loop (suc fuel) value result =
    let rest = count_loop fuel (value / 2) (result + value % 2) in
    if value == 0 then some result else rest

unfoldable pub get_bit_count : ℕ → Option ℕ
get_bit_count value = count_loop 33 value 0

unfoldable pub size_loop : ℕ → ℕ → ℕ → Option ℕ
size_loop zero value result = none
size_loop (suc fuel) value result =
    let rest = size_loop fuel (value / 2) (result + 1) in if value == 0 then some result else rest

unfoldable pub get_bit_size : ℕ → Option ℕ
get_bit_size value = if value == 0 then some 1 else size_loop 33 value 0
