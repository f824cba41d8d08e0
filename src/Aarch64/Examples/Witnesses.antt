-- ===== src/Aarch64/Examples/Witnesses.antt =====
-- The A64 decoder at concrete words.
use amed.Base.{◌≡◌, arith, true, false, some, [], ◌∷◌, get_or}
use amed.Aarch64.Fields.{decode_logimm}
use amed.Aarch64.Fields.Logimm.{decode_logimm_lem, copies}
use amed.Aarch64.Alias.{move_wide_preferred, bfx_preferred}
use amed.Aarch64.Alias.Preferred.{
  move_wide_preferred_lem, bfx_preferred_lem, arm_move_wide_preferred, arm_bfx_preferred,
}
use amed.Aarch64.State.{Insn}
use amed.Aarch64.Entry.{amed_aarch64_decode_insn}
use amed.Aarch64.Frame.Entry.{amed_aarch64_decode_insn-IsReturned}
use amed.Aarch64.Arguments.Lists.{decode_arg_vlist}
use amed.Aarch64.Arguments.Lists.Consecutive.{decode_arg_vlist-DecodesList, DecodesList}
use amed.Aarch64.Examples.Fixture.{
  database, readable, classes, before, empty_insn, empty_argument, list_node,
}

-- Eight ones in each half word.
decode_logimm_lem_example : decode_logimm 0x9c0 64 ≡ some 0x00ff00ff00ff00ff
unfolding copies
decode_logimm_lem_example =
    decode_logimm_lem 0x9c0 64 4 (omega arith) (omega arith) (omega arith) (omega arith)

-- A run of 16 ones that is rotated over the end of a half word.
move_wide_preferred_lem_example : move_wide_preferred true true 15 8 ≡ true
unfolding arm_move_wide_preferred
move_wide_preferred_lem_example = move_wide_preferred_lem true true 15 8 (omega arith) (omega arith)

-- SXTB of a 64-bit register.
bfx_preferred_lem_example : bfx_preferred true false 7 0 ≡ true
unfolding arm_bfx_preferred
bfx_preferred_lem_example = bfx_preferred_lem true false 7 0 (omega arith)

-- `add x0, x1, #8`.
amed_aarch64_decode_insn-IsReturned_example :
    (t : Insn) × (amed_aarch64_decode_insn database before 128 true
        (λ i. get_or (0x20 ∷ 0x20 ∷ 0x00 ∷ 0x91 ∷ []) i 0)
        4
        empty_insn
      ≡ some (t, true))
    × (t.length ≡ 4)
    × (t.is_undefined ≡ false)
amed_aarch64_decode_insn-IsReturned_example =
    amed_aarch64_decode_insn-IsReturned database readable before 128 true
      (λ i. get_or (0x20 ∷ 0x20 ∷ 0x00 ∷ 0x91 ∷ []) i 0) 4 empty_insn

decode_arg_vlist-DecodesList_example :
    DecodesList 2 (decode_arg_vlist database before empty_argument list_node)
decode_arg_vlist-DecodesList_example =
    decode_arg_vlist-DecodesList database classes list_node before empty_argument
