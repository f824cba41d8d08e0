-- ===== src/X86/Examples/Witnesses.antt =====
-- The theorems on the x86 decoder at `add rax, [rax + rcx * 2 - 8]`, and at single fields.
use amed.Base.{◌<◌, ◌≡◌, ◌≤◌, ◌+◌, ◌*◌, ◌^◌, refl, arith, true, bit, zero, suc, ℕ, false, Bool}
use amed.Base.Int.{signed, pos}
use mathlib.Core.Option.{some}
use amed.Utils.Datatype.{Datatype, is_datatype_signed}
use amed.X86.Arguments.Immediates.{extend_immediate, decode_arg_imm}
use amed.X86.Arguments.Immediates.Extension.{extend_immediate_lem}
use amed.X86.Arguments.Immediates.Value.{decode_arg_imm-le_value}
use amed.X86.Arguments.Slots.{argument_at}
use amed.X86.Database.{RegNode, AnyNode}
use amed.X86.Diagram.{Diagram, set_hashcode, clear_attributes}
use amed.X86.Entry.{
  MachineMode, prefix_fuel, default_osz, default_asz, start_entry, read_plain, read_opcode,
  set_opcode, set_sizes, find_encoding, force_osz, amed_x86_decode_insn,
}
use amed.X86.Examples.Fixture.{database, reg_node}
use amed.X86.Examples.Start.{blank_diagram, start}
use amed.X86.Fetch.{peek_byte, advance_byte, add_bytecode, le_value, bytes_from}
use amed.X86.Legacy.{set_modrm_field, prefix_loop, prefix_round, prefix_case}
use amed.X86.Modrm.{decode_modrm}
use amed.X86.Modrm.Operand.{operand_length, repeated_length, decode_modrm-operand_length}
use amed.X86.Moves.{Moves, Kept}
use amed.X86.Moves.Entry.{
  IsReturned, prefixes-Ended, read_opcode-Moves, amed_x86_decode_insn-IsReturned,
}
use amed.X86.Moves.Legacy.{Ended}
use amed.X86.Moves.Modrm.{decode_modrm-Kept}
use amed.X86.Prefix.{decode_rex, rex_fields, vex2_fields, vex3_fields}
use amed.X86.Prefix.Equivalence.{vex2_fields-vex3_fields}
use amed.X86.Register.{get_real_size}
use amed.X86.Setters.{set_mmmmm_field, set_w_field}
use amed.X86.Sizes.{IsSized}
use amed.X86.Sizes.Entry.{decode_entry-IsSized}
use amed.X86.State.{Internal}
use amed.X86.Symbols.{symbol_xmmreg}

decode_insn-IsReturned_example :
    IsReturned (amed_x86_decode_insn database MachineMode.mode64 0 5 start)
decode_insn-IsReturned_example =
    amed_x86_decode_insn-IsReturned database MachineMode.mode64 0 5 start

prefixes-Ended_example : Ended start (
    prefix_loop prefix_fuel
      (default_osz MachineMode.mode64)
      (default_asz MachineMode.mode64)
      (start_entry MachineMode.mode64 0 start))
prefixes-Ended_example = prefixes-Ended MachineMode.mode64 0 start (omega arith)

-- After the REX prefix, at the opcode; and after it, at ModRM.
abbrev at_opcode : Internal
at_opcode = record start { pc = 1 }

abbrev at_modrm : Internal
at_modrm = record start {
  pc = 2;
  diagram = record blank_diagram { modrm_mod = 1; rm = 4; long_mode = true };
}

opcode_is_read : (read_opcode at_opcode).2 ≡ true
unfolding read_opcode read_plain peek_byte advance_byte set_modrm_field
opcode_is_read = refl

read_opcode-Moves_example :
    Moves at_opcode (set_opcode (read_opcode at_opcode).1 (read_opcode at_opcode).0)
read_opcode-Moves_example = read_opcode-Moves at_opcode (omega arith) opcode_is_read

decode_modrm-Kept_example : Kept at_modrm (decode_modrm at_modrm)
decode_modrm-Kept_example = decode_modrm-Kept at_modrm (omega arith) (omega arith)

operand_is_left :
    2 + (operand_length 1 4 (start.address 3) + repeated_length 1 4 (start.address 3)) ≤ 5
unfolding operand_length repeated_length
operand_is_left = omega arith

decode_modrm-operand_length_example :
    ((decode_modrm at_modrm).1 ≡ true)
    × ((decode_modrm at_modrm).0.pc
        ≡ 2 + (operand_length 1 4 (start.address 3) + repeated_length 1 4 (start.address 3)))
decode_modrm-operand_length_example =
    decode_modrm-operand_length at_modrm (omega arith) (omega arith) operand_is_left

-- The bytes 0xc5, 0xd8, and 0xc4, 0xe1, 0x58.
vex2_fields-vex3_fields_example :
    vex2_fields start (bit true * 2 ^ 7 + 0x58)
    ≡ vex3_fields (set_mmmmm_field start 1).0 (bit true * 2 ^ 7 + 2 ^ 6 + 2 ^ 5 + 1) 0x58
vex2_fields-vex3_fields_example =
    vex2_fields-vex3_fields start true 0x58 (omega arith) refl refl refl

extend_immediate_example : signed 64 (extend_immediate true 8 0xf8) ≡ signed 8 0xf8
extend_immediate_example = extend_immediate_lem 8 0xf8 (omega arith) (omega arith) (omega arith)

-- The node of the operand, and the fields of an EVEX prefix.
abbrev xmm_node : RegNode
xmm_node = record reg_node { symbol = symbol_xmmreg }

abbrev evex_diagram : Diagram
evex_diagram = record blank_diagram {
  long_mode = true;
  reg = 5;
  rm = 3;
  r = true;
  b = true;
  rp = true;
}

-- XMM29, from the bits 1, 1 and 5, and outside 64-bit mode XMM5.
abbrev at_evex : Bool → Internal
at_evex long_mode = record start { diagram = record evex_diagram { long_mode = long_mode } }

-- The loop of prefixes ends after the REX prefix.
abbrev rex_taken : Internal
rex_taken = (decode_rex (start_entry MachineMode.mode64 0 start)).0

prefixes_end :
    prefix_loop prefix_fuel
      (default_osz MachineMode.mode64)
      (default_asz MachineMode.mode64)
      (start_entry MachineMode.mode64 0 start)
    ≡ some rex_taken
unfolding prefix_loop prefix_round prefix_case decode_rex rex_fields set_w_field add_bytecode
    advance_byte peek_byte start_entry set_hashcode clear_attributes
prefixes_end = refl

decode_entry-IsSized_example :
    IsSized rex_taken
    × IsSized (force_osz (find_encoding database (set_sizes (set_opcode rex_taken 0x03)) 0x03))
decode_entry-IsSized_example =
    decode_entry-IsSized database MachineMode.mode64 0 start rex_taken 0x03 prefixes_end

-- An immediate of one signed byte, at the last byte.
abbrev imm_node : AnyNode
imm_node = record {
  datatype = Datatype.s8;
  symbol = 0;
  size = pos 8;
  read = true;
  write = false;
  has_encodedin = true;
  value = 1;
}

abbrev at_imm : Internal
at_imm = record start { pc = 4 }

bytes_fit : (j : ℕ) → at_imm.address j < 256
bytes_fit zero = omega arith
bytes_fit (suc zero) = omega arith
bytes_fit (suc (suc zero)) = omega arith
bytes_fit (suc (suc (suc zero))) = omega arith
bytes_fit (suc (suc (suc (suc zero)))) = omega arith
bytes_fit (suc (suc (suc (suc (suc j))))) = omega arith

imm_is_signed : is_datatype_signed Datatype.s8 ≡ true
unfolding is_datatype_signed
imm_is_signed = refl

imm_size : get_real_size (pos 8) 0 ≡ 8
unfolding get_real_size
imm_size = refl

decode_arg_imm-le_value_example :
    ((decode_arg_imm at_imm 0 imm_node).1 ≡ true)
    × (signed 64 (argument_at (decode_arg_imm at_imm 0 imm_node).0 0).imm
        ≡ signed 8 (le_value (bytes_from at_imm.address 4 1)))
decode_arg_imm-le_value_example =
    decode_arg_imm-le_value at_imm 0 imm_node 1 bytes_fit refl refl imm_is_signed imm_size
      (omega arith) (omega arith) (omega arith)
