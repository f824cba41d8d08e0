-- ===== src/Aarch64.antt =====
-- source/aarch64: the decoder of A64 instructions.
pub mod Names
pub mod Database
pub mod State
pub mod Fields
pub mod Alias
pub mod Arguments
pub mod Nodes
pub mod Entry
pub mod Frame
pub mod Printer
pub mod Examples
