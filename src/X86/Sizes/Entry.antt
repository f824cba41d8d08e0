-- ===== src/X86/Sizes/Entry.antt =====
-- source/x86/decoder.c: `osz` and `asz` in `decode_entry`, up to the forced sizes.
use amed.Base.{
  ℕ, zero, suc, ◌/◌, ◌≤◌, ◌≡◌, ap, subst, arith, some-cases, if-cases, List, [], ◌∷◌, Bool, true,
  false, Option, some, none, ◌==◌,
}
use amed.X86.Names.{BytecodeType, map_idx_0f, map_idx_0f0f, map_idx_0f38, map_idx_0f3a}
use amed.X86.Database.{Database}
use amed.X86.State.{Internal}
use amed.X86.Fetch.{peek_byte, advance_byte, add_bytecode}
use amed.X86.Prefix.{decode_rex}
use amed.X86.Legacy.{
  decode_map, add_segment, take_prefix, Round, segment_override, after_rex, prefix_case,
  prefix_round, prefix_loop,
}
use amed.X86.Entry.{
  MachineMode, default_osz, default_asz, prefix_fuel, start_entry, set_opcode, set_sizes,
  find_encoding, force_osz,
}
use amed.X86.Sizes.{
  IsSized, KeepsSized, add_bytecode-IsSized, decode_rex-IsSized, decode_vex2-IsSized,
  decode_vex3-IsSized, decode_xop-IsSized, decode_mevex-IsSized,
}

abbrev RoundSized : Round → Type 0
RoundSized (Round.reenter t) = IsSized t
RoundSized (Round.leave t) = IsSized t

after_rex-RoundSized : (r : Internal × Bool) → KeepsSized r → RoundSized (after_rex r)
after_rex-RoundSized (t, true) h = h
after_rex-RoundSized (t, false) h = h

module _ (s : Internal) (h : IsSized s) where
  byte-IsSized :
      (bytes : List ℕ) (kind : BytecodeType) → IsSized (add_bytecode (advance_byte s) bytes kind).0
  unfolding advance_byte
  byte-IsSized bytes kind = add_bytecode-IsSized _ bytes kind (record { osz = h.osz; asz = h.asz })

  add_segment-IsSized : (op segment : ℕ) → IsSized (add_segment s op segment)
  unfolding add_segment
  add_segment-IsSized op segment =
      let t = byte-IsSized (op ∷ []) BytecodeType.prefix in record { osz = t.osz; asz = t.asz }

take_prefix-IsSized : (s : Internal) (op : ℕ) → IsSized s → IsSized (take_prefix s op)
unfolding take_prefix
take_prefix-IsSized s op h = byte-IsSized s h (op ∷ []) BytecodeType.prefix

decode_map-IsSized : (s : Internal) → IsSized s → IsSized (decode_map s)
unfolding decode_map advance_byte
decode_map-IsSized s h =
    let s1 = advance_byte (record s { mapidx = map_idx_0f }) in
    let h1 : IsSized s1 = record { osz = h.osz; asz = h.asz } in
    let plain = add_bytecode-IsSized s1 (0x0f ∷ []) BytecodeType.map h1 in
    let escaped = λ (idx op : ℕ).
      byte-IsSized (record s1 { mapidx = idx }) (record { osz = h.osz; asz = h.asz })
        (op ∷ 0x0f ∷ []) BytecodeType.map in
    some-cases IsSized (peek_byte s1) (λ _. plain)
      λ op _.
        if-cases IsSized (op == 0x0f) (λ _. escaped map_idx_0f0f 0x0f)
          λ _.
            if-cases IsSized (op == 0x38) (λ _. escaped map_idx_0f38 0x38)
              λ _. if-cases IsSized (op == 0x3a) (λ _. escaped map_idx_0f3a 0x3a) λ _. plain

abbrev WhereEnded : Option Internal → Type 0
WhereEnded o = (t : Internal) → o ≡ some t → IsSized t

round_cases :
    (r : Round)
    → RoundSized r
    → (next : Internal → Option Internal) → ((u : Internal) → IsSized u → WhereEnded (next u))
    → WhereEnded (elim r [ Round.leave u ↦ some u | Round.reenter u ↦ next u ])
round_cases (Round.reenter u) h next f = f u h
round_cases (Round.leave u) h next f =
    λ t e. subst IsSized (ap (λ (o : Option Internal). elim o [ none ↦ u | some v ↦ v ]) e) h

module _ (dfopsize dfadsize : ℕ) (o : dfopsize ≤ 2) (a : dfadsize ≤ 2) where
  prefix_case-RoundSized :
      (s : Internal) (op : ℕ) → IsSized s → RoundSized (prefix_case dfopsize dfadsize s op)
  unfolding prefix_case
  prefix_case-RoundSized s op h =
      if-cases RoundSized (op == 0x66)
        (λ _. take_prefix-IsSized _ op (record { osz = omega arith; asz = h.asz }))
        λ _.
          if-cases RoundSized (op == 0x67)
            (λ _. take_prefix-IsSized _ op (record { osz = h.osz; asz = omega arith }))
            λ _.
              if-cases RoundSized (op == 0xf0)
                (λ _. take_prefix-IsSized _ op (record { osz = h.osz; asz = h.asz }))
                λ _.
                  if-cases RoundSized (op == 0xf2)
                    (λ _. take_prefix-IsSized _ op (record { osz = h.osz; asz = h.asz }))
                    λ _.
                      if-cases RoundSized (op == 0xf3)
                        (λ _. take_prefix-IsSized _ op (record { osz = h.osz; asz = h.asz }))
                        λ _.
                          if-cases RoundSized (op == 0x0f) (λ _. decode_map-IsSized s h)
                            λ _.
                              if-cases RoundSized (op == 0x8f) (λ _. decode_xop-IsSized s h)
                                λ _.
                                  if-cases RoundSized (op == 0x62) (λ _. decode_mevex-IsSized s h)
                                    λ _.
                                      if-cases RoundSized (op == 0xc4)
                                        (λ _. decode_vex3-IsSized s h)
                                        λ _.
                                          if-cases RoundSized (op == 0xc5)
                                            (λ _. decode_vex2-IsSized s h) λ _. h

  prefix_round-RoundSized :
      (s : Internal) → IsSized s → RoundSized (prefix_round dfopsize dfadsize s)
  unfolding prefix_round
  prefix_round-RoundSized s h =
      some-cases RoundSized (peek_byte s) (λ _. h)
        λ op _.
          if-cases RoundSized (op / 16 == 4)
            (λ _. after_rex-RoundSized (decode_rex s) (decode_rex-IsSized s h))
            λ _.
              some-cases RoundSized (segment_override op) (λ _. prefix_case-RoundSized s op h)
                λ segment _. add_segment-IsSized s h op segment

  -- A state that the loop ends in.
  prefix_loop-WhereEnded :
      (fuel : ℕ) (s : Internal) → IsSized s → WhereEnded (prefix_loop fuel dfopsize dfadsize s)
  unfolding prefix_loop
  prefix_loop-WhereEnded zero s h = λ t no. absurd (ground arith)
  prefix_loop-WhereEnded (suc fuel) s h =
      round_cases (prefix_round dfopsize dfadsize s) (prefix_round-RoundSized s h)
        (prefix_loop fuel dfopsize dfadsize) (prefix_loop-WhereEnded fuel)

default_sizes : (mode : MachineMode) → (default_osz mode ≤ 2) × (default_asz mode ≤ 2)
default_sizes MachineMode.mode16 = (omega arith, omega arith)
default_sizes MachineMode.mode32 = (omega arith, omega arith)
default_sizes MachineMode.mode64 = (omega arith, omega arith)
default_sizes MachineMode.other = (omega arith, omega arith)

start_entry-IsSized :
    (mode : MachineMode) (features : ℕ) (s : Internal) → IsSized (start_entry mode features s)
unfolding start_entry
start_entry-IsSized mode features s = let d = default_sizes mode in record { osz = d.0; asz = d.1 }

module _ (s : Internal) (h : IsSized s) where
  set_opcode-IsSized : (op : ℕ) → IsSized (set_opcode s op)
  unfolding set_opcode
  set_opcode-IsSized op =
      let t = add_bytecode-IsSized s (op ∷ []) BytecodeType.opcode h in
      record { osz = t.osz; asz = t.asz }

  set_sizes-IsSized : IsSized (set_sizes s)
  unfolding set_sizes
  set_sizes-IsSized = ground (arith, h.osz, h.asz)

  find_encoding-IsSized : (db : Database) (op : ℕ) → IsSized (find_encoding db s op)
  unfolding find_encoding
  find_encoding-IsSized db op = record { osz = h.osz; asz = h.asz }

  force_osz-IsSized : IsSized (force_osz s)
  unfolding force_osz
  force_osz-IsSized = ground (arith, h.osz, h.asz)

-- For every database, mode, features, state before and opcode: a state in which the loop of the
-- legacy prefixes ends has both sizes below 3, and so has the one in which the operands are then
-- decoded, after the record of the opcode, the lookup and the sizes that the template forces.
pub decode_entry-IsSized :
    (db : Database) (mode : MachineMode) (features : ℕ) (s t : Internal) (op : ℕ)
    → prefix_loop prefix_fuel (default_osz mode) (default_asz mode) (start_entry mode features s)
      ≡ some t
    → IsSized t × IsSized (force_osz (find_encoding db (set_sizes (set_opcode t op)) op))
decode_entry-IsSized db mode features s t op e =
    let d = default_sizes mode in
    let h =
      prefix_loop-WhereEnded (default_osz mode) (default_asz mode) d.0 d.1 prefix_fuel
        (start_entry mode features s) (start_entry-IsSized mode features s) t e in
    (
      h,
      force_osz-IsSized _
          (find_encoding-IsSized _ (set_sizes-IsSized _ (set_opcode-IsSized t h op)) db op),
    )
