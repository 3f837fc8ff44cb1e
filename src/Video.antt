-- ===== src/Video.antt =====
-- The screen of the kernel and what is printed on it.
pub mod Screen
pub mod Print
pub mod Console
pub mod Tests
