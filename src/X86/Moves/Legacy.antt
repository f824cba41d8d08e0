-- ===== src/X86/Moves/Legacy.antt =====
-- source/x86/decoder.c: the moves of the loop of legacy prefixes, and its rounds.
use amed.Base.{
  ℕ, zero, suc, ◌+◌, ◌-◌, ◌/◌, ◌<◌, ◌≤◌, ◌≡◌, refl, arith, some-cases, if-cases, [], ◌∷◌, Option,
  some, ◌==◌,
}
use amed.X86.Names.{BytecodeType, map_idx_0f, map_idx_0f0f, map_idx_0f38, map_idx_0f3a}
use amed.X86.State.{Internal}
use amed.X86.Fetch.{peek_byte, advance_byte, add_bytecode}
use amed.X86.Setters.{set_w_field}
use amed.X86.Prefix.{rex_fields, decode_rex}
use amed.X86.Legacy.{
  decode_map, add_segment, take_prefix, Round, segment_override, after_rex, prefix_case,
  prefix_round, prefix_loop,
}
use amed.X86.Moves.{Moves, Moves-refl, Moves-trans, Quiet, Quiet-Moves, quiet}
use amed.X86.Moves.Steps.{add_bytecode-Moves, pc-add_bytecode, peek_byte-fits}
use amed.X86.Moves.Prefix.{
  rex_fields-Quiet, decode_vex2-Kept, decode_vex3-Kept, decode_xop-Kept, decode_mevex-Kept,
}

-- A move over at least one byte.
record Progress (s t : Internal) : Type 0 where
  pub moves : Moves s t
  pub progresses : s.pc + 1 ≤ t.pc

-- What a round does: one that the loop goes on after takes a byte.
abbrev RoundMoves : Internal → Round → Type 0
RoundMoves s (Round.reenter t) = Progress s t
RoundMoves s (Round.leave t) = Moves s t

round-cases {ℓ} :
    (P : Round → Type ℓ) (s : Internal) (r : Round)
    → RoundMoves s r
    → ((t : Internal) → Progress s t → P (Round.reenter t))
    → ((t : Internal) → Moves s t → P (Round.leave t))
    → P r
round-cases P s (Round.reenter t) m f g = f t m
round-cases P s (Round.leave t) m f g = g t m

pc-advance_byte : (s : Internal) → s.pc + 1 < 256 → (advance_byte s).pc ≡ s.pc + 1
unfolding advance_byte
pc-advance_byte s h = omega arith

module _ (s : Internal) (h : s.nb < 256) (k : s.pc + 1 ≤ s.nb) where
  byte-Progress :
      {t : Internal} (op : ℕ) (kind : BytecodeType)
      → Quiet s t
      → Progress s (add_bytecode (advance_byte t) (op ∷ []) kind).0
  unfolding advance_byte
  byte-Progress {t} op kind q = record {
    moves =
        add_bytecode-Moves s (advance_byte t) (op ∷ []) kind (omega arith) (omega arith) q.same_nb
          q.same_bytecodes;
    progresses = omega (arith, pc-add_bytecode (advance_byte t) (op ∷ []) kind);
  }

  take_prefix-Progress : {t : Internal} (op : ℕ) → Quiet s t → Progress s (take_prefix t op)
  unfolding take_prefix
  take_prefix-Progress op q = byte-Progress op BytecodeType.prefix q

  add_segment-Progress : (op segment : ℕ) → Progress s (add_segment s op segment)
  unfolding add_segment
  add_segment-Progress op segment =
      let p = byte-Progress op BytecodeType.prefix (quiet refl refl refl) in
      record {
        moves = Moves-trans p.moves (Quiet-Moves (quiet refl refl refl));
        progresses = p.progresses;
      }

  -- The bytes of a map's escape, the first of which is left.
  decode_map-Moves : Moves s (decode_map s)
  unfolding decode_map advance_byte
  decode_map-Moves =
      let s1 = advance_byte (record s { mapidx = map_idx_0f }) in
      let plain =
        add_bytecode-Moves s s1 (0x0f ∷ []) BytecodeType.map (omega arith) (omega arith) refl
          refl in
      some-cases (Moves s) (peek_byte s1) (λ _. plain)
        λ op e.
          let fits = (peek_byte-fits s1 op e).0 in
          let escaped = λ (idx byte : ℕ).
            add_bytecode-Moves s (advance_byte (record s1 { mapidx = idx })) (byte ∷ 0x0f ∷ [])
              BytecodeType.map (omega arith) (omega arith) refl refl in
          if-cases (Moves s) (op == 0x0f) (λ _. escaped map_idx_0f0f 0x0f)
            λ _.
              if-cases (Moves s) (op == 0x38) (λ _. escaped map_idx_0f38 0x38)
                λ _. if-cases (Moves s) (op == 0x3a) (λ _. escaped map_idx_0f3a 0x3a) λ _. plain

  decode_rex-RoundMoves : RoundMoves s (after_rex (decode_rex s))
  unfolding decode_rex rex_fields set_w_field advance_byte
  decode_rex-RoundMoves =
      if-cases (λ r. RoundMoves s (after_rex r)) s.diagram.long_mode
        (λ _.
          some-cases (λ r. RoundMoves s (after_rex r)) (peek_byte s) (λ _. Moves-refl s)
            λ rex e. byte-Progress rex BytecodeType.rex (rex_fields-Quiet s rex))
        (λ _. Moves-refl s)

  prefix_case-RoundMoves :
      (dfopsize dfadsize op : ℕ) → RoundMoves s (prefix_case dfopsize dfadsize s op)
  unfolding prefix_case
  prefix_case-RoundMoves dfopsize dfadsize op =
      if-cases (RoundMoves s) (op == 0x66) (λ _. take_prefix-Progress op (quiet refl refl refl))
        λ _.
          if-cases (RoundMoves s) (op == 0x67) (λ _. take_prefix-Progress op (quiet refl refl refl))
            λ _.
              if-cases (RoundMoves s) (op == 0xf0)
                (λ _. take_prefix-Progress op (quiet refl refl refl))
                λ _.
                  if-cases (RoundMoves s) (op == 0xf2)
                    (λ _. take_prefix-Progress op (quiet refl refl refl))
                    λ _.
                      if-cases (RoundMoves s) (op == 0xf3)
                        (λ _. take_prefix-Progress op (quiet refl refl refl))
                        λ _.
                          if-cases (RoundMoves s) (op == 0x0f) (λ _. decode_map-Moves)
                            λ _.
                              if-cases (RoundMoves s) (op == 0x8f)
                                (λ _. (decode_xop-Kept s h).moves)
                                λ _.
                                  if-cases (RoundMoves s) (op == 0x62)
                                    (λ _. (decode_mevex-Kept s h).moves)
                                    λ _.
                                      if-cases (RoundMoves s) (op == 0xc4)
                                        (λ _. (decode_vex3-Kept s h).moves)
                                        λ _.
                                          if-cases (RoundMoves s) (op == 0xc5)
                                            (λ _. (decode_vex2-Kept s h).moves) λ _. Moves-refl s

prefix_round-RoundMoves :
    (dfopsize dfadsize : ℕ) (s : Internal)
    → s.nb < 256
    → RoundMoves s (prefix_round dfopsize dfadsize s)
unfolding prefix_round
prefix_round-RoundMoves dfopsize dfadsize s h =
    some-cases (RoundMoves s) (peek_byte s) (λ _. Moves-refl s)
      λ op e.
        let k = (peek_byte-fits s op e).0 in
        if-cases (RoundMoves s) (op / 16 == 4) (λ _. decode_rex-RoundMoves s h k)
          λ _.
            some-cases (RoundMoves s) (segment_override op)
              (λ _. prefix_case-RoundMoves s h k dfopsize dfadsize op)
              λ segment _. add_segment-Progress s h k op segment

-- The loop ends, in a state that has moved.
pub record Ended (s : Internal) (o : Option Internal) : Type 0 where
  pub state : Internal
  pub ends : o ≡ some state
  pub moves : Moves s state

pub prefix_loop-Ended :
    (fuel dfopsize dfadsize : ℕ) (s : Internal)
    → s.nb < 256
    → s.nb - s.pc < fuel
    → Ended s (prefix_loop fuel dfopsize dfadsize s)
unfolding prefix_loop
prefix_loop-Ended zero dfopsize dfadsize s h k = absurd (omega arith)
prefix_loop-Ended (suc fuel) dfopsize dfadsize s h k =
    round-cases
      (λ r. Ended s (elim r [
        | Round.leave s1 ↦ some s1
        | Round.reenter s1 ↦ prefix_loop fuel dfopsize dfadsize s1
      ]))
      s (prefix_round dfopsize dfadsize s) (prefix_round-RoundMoves dfopsize dfadsize s h)
      (λ t p.
        let rest =
          prefix_loop-Ended fuel dfopsize dfadsize t (omega (arith, p.moves.same_nb))
            (omega (arith, p.moves.same_nb, p.progresses)) in
        record { state = rest.state; ends = rest.ends; moves = Moves-trans p.moves rest.moves })
      (λ t m. record { state = t; ends = refl; moves = m })
