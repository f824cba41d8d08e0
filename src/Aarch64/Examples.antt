-- ===== src/Aarch64/Examples.antt =====
-- The A64 decoder at concrete words.
pub mod Fixture
pub mod Printing
mod Witnesses
