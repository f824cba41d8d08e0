-- ===== src/Aarch64/Arguments.antt =====
-- source/aarch64/decoder.c, one function for each kind of argument.
pub mod Registers
pub mod Shifters
pub mod Immediates
pub mod Memory
pub mod Enums
pub mod Lists
