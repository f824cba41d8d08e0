-- ===== src/X86/Arguments/Immediates/Extension.antt =====
-- source/x86/decoder.c: the sign extension at the end of `decode_arg_imm`.
use amed.Base.{ℕ, ◌+◌, ◌-◌, ◌^◌, ◌<◌, ◌≤◌, ◌≡◌, subst, arith, true, some}
use amed.Base.Int.{signed}
use amed.Utils.Binary.{sign_extend64}
use amed.Utils.Binary.Extend.{sign_extend64_lem}
use amed.X86.Arguments.Immediates.{extend_immediate}

-- For every size of 1 to 64 bits and every immediate of that size, the 64-bit pattern that a signed
-- immediate is extended to stands for the number that the immediate does.
pub extend_immediate_lem :
    (size v : ℕ)
    → 1 ≤ size
    → size ≤ 64
    → v < 2 ^ size
    → signed 64 (extend_immediate true size v) ≡ signed size v
unfolding extend_immediate sign_extend64
extend_immediate_lem size v one le lt =
    let whole : size - 1 + 1 ≡ size = omega arith in
    let read = sign_extend64_lem v (size - 1) (omega arith) (rw whole lt) in
    ground (arith, subst (λ t. sign_extend64 v (size - 1) ≡ some (signed t v)) whole read)
