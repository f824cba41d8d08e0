-- ===== src/Aarch32.antt =====
-- source/aarch32: the decoder of A32 and T32 instructions.
pub mod Names
pub mod Database
pub mod State
pub mod Fields
pub mod Immediates
pub mod Arguments
pub mod It
pub mod Nodes
pub mod Entry
pub mod Frame
pub mod Printer
pub mod Examples
