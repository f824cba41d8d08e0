-- ===== src/X86.antt =====
-- source/x86: the decoder of x86 instructions, in 16, 32 and 64-bit mode.
pub mod Names
pub mod Symbols
pub mod Database
pub mod Diagram
pub mod State
pub mod Fetch
pub mod Setters
pub mod Prefix
pub mod Modrm
pub mod Register
pub mod Arguments
pub mod Nodes
pub mod Legacy
pub mod Entry
pub mod Moves
pub mod Sizes
pub mod Printer
pub mod Examples
