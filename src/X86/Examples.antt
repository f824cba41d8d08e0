-- ===== src/X86/Examples.antt =====
-- The x86 decoder at concrete bytes.
pub mod Fixture
pub mod Start
pub mod Printing
mod Witnesses
