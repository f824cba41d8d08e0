-- ===== src/Aarch32/Arguments.antt =====
-- source/aarch32/decoder.c: one function for each kind of argument.
pub mod Registers
pub mod Shifters
pub mod Immediates
pub mod Labels
pub mod Memory
pub mod Enums
pub mod Lists
