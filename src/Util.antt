-- ===== src/Util.antt =====
-- src/util.c: hexadecimal numbers, sizes with a suffix, escape sequences, rich offsets.
-- A C string is the list of its bytes without the terminator; reading the terminator gives 0.
pub mod Hex
pub mod Escape
pub mod Size
pub mod Seek
