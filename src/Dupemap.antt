-- ===== src/Dupemap.antt =====
-- The parts of src/dupemap.c: the checksum of a file, the mode of operation, and the files that it finds
-- to be duplicates.
pub mod Crctab
pub mod Checksum
pub mod Mode
pub mod Dbm
pub mod ScanFile
pub mod Main
pub mod World
pub mod Run
