-- ===== src/Tests.antt =====
-- The theorems at concrete inputs.
pub mod Code
pub mod Labels
pub mod Programs
pub mod Operands
pub mod Formats
pub mod Masks
pub mod Frames
pub mod Mnemonics
