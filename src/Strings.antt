-- ===== src/Strings.antt =====
-- The string library of the kernel.
pub mod Units
pub mod Utils
pub mod Format
pub mod Numerals
pub mod Tests
