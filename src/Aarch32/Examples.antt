-- ===== src/Aarch32/Examples.antt =====
-- The AArch32 decoder at concrete words.
pub mod Fixture
pub mod Printing
pub mod Witnesses
