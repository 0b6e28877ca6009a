-- ===== src/Restart.antt =====
-- src/cpmdc_restart.c: reading, patching and writing a CPMD RESTART file.
pub mod Bytes
pub mod Records
pub mod Sections
pub mod File
pub mod Triples
pub mod Species
pub mod RoundTrip
mod Tests
