-- ===== src/X86/Arguments.antt =====
-- source/x86/decoder.c, the arguments of an instruction: `decode_node` and what it calls. An
-- argument is given by its place in the array of the insn.
pub mod Slots
pub mod Registers
pub mod Memory
pub mod Immediates
pub mod Swizzle
pub mod Offsets
