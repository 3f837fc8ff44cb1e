-- ===== src/Fat32/LongNames.antt =====
-- The entries of a long name: writeFAT32Entry puts them where parseFAT32Entry finds the name again.
pub mod Slots
pub mod Reads
pub mod Collect
pub mod RoundTrip
pub mod Passed
pub mod Entry
