-- ===== src/Aarch64/Alias/Preferred.antt =====
-- The conditions of the aliases of A64 moves and bit fields against ARM's definitions of them.
use amed.Base.{
  ℕ, ◌+◌, ◌-◌, ◌*◌, ◌%◌, ◌<◌, ◌≡◌, arith, Bool, true, false, not, ◌&&◌, ◌||◌, ltb, leb, ◌==◌,
  if◌then◌else◌, bit,
}
use amed.Aarch64.Alias.{move_wide_preferred, bfx_preferred}

-- ARM's MoveWidePreferred, of a 64-bit or 32-bit immediate: a run of at most 16 ones, or of at most
-- 16 zeros, that stays in one half word. MOD is never negative there.
unfoldable pub arm_move_wide_preferred : Bool → Bool → ℕ → ℕ → Bool
arm_move_wide_preferred sf n imms immr =
    let width = if sf then 64 else 32 in
    let sized = if sf then n else not n && not (leb 32 imms) in
    sized
    && (if ltb imms 16
        then leb ((64 - immr) % 16) (15 - imms)
        else leb (width - 15) imms && leb (immr % 16) (imms - (width - 15)))

-- The source agrees with ARM, except that of at most 16 ones it takes every rotation.
pub move_wide_preferred_lem :
    (sf n : Bool) (imms immr : ℕ)
    → imms < 64
    → immr < 64
    → move_wide_preferred sf n imms immr
      ≡ (arm_move_wide_preferred sf n imms immr || ltb imms 16 && (if sf then n else not n))
unfolding move_wide_preferred arm_move_wide_preferred
move_wide_preferred_lem true true imms immr h k = ground arith
move_wide_preferred_lem true false imms immr h k = ground arith
move_wide_preferred_lem false true imms immr h k = ground arith
move_wide_preferred_lem false false imms immr h k = ground arith

-- ARM's BFXPreferred.
unfoldable pub arm_bfx_preferred : Bool → Bool → ℕ → ℕ → Bool
arm_bfx_preferred sf uns imms immr =
    let byte_or_half = imms == 7 || imms == 15 in
    let extends = (if sf then not uns && (byte_or_half || imms == 31) else byte_or_half) in
    leb immr imms && not (imms == bit sf * 32 + 31) && not (immr == 0 && extends)

-- The source agrees with ARM, with the signed and the unsigned move exchanged in 64 bits.
pub bfx_preferred_lem :
    (sf uns : Bool) (imms immr : ℕ)
    → imms < 64
    → bfx_preferred sf uns imms immr ≡ arm_bfx_preferred sf (if sf then not uns else uns) imms immr
unfolding bfx_preferred arm_bfx_preferred
bfx_preferred_lem true true imms immr h = ground arith
bfx_preferred_lem true false imms immr h = ground arith
bfx_preferred_lem false uns imms immr h = ground arith
