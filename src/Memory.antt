-- ===== src/Memory.antt =====
-- Memory.
pub mod Bytes
pub mod Utils
pub mod Identity
pub mod Manager
pub mod Tests
