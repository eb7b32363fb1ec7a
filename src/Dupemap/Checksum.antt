-- ===== src/Dupemap/Checksum.antt =====
-- `checksum_calc` of src/dupemap.c: the cyclic redundancy check of a file and of its length.
pub mod Table
pub mod Register
pub mod Cksum
use magicrescue.Base.{
  ℕ, zero, suc, ◌+◌, ◌-◌, ◌*◌, ◌/◌, ◌%◌, ◌^◌, bit_and, bit_xor, Bool, true, false, Option, none,
  some, List, [], ◌∷◌, ◌==◌, if◌then◌else◌, length, get_or,
}
use magicrescue.Dupemap.Crctab.{crctab}

pub record Checksum : Type 0 where
  pub crc : ℕ
  pub filesize : ℕ

-- What `fread` returns for an open file, chunk after chunk, and what `ferror` says at the end.
pub record Reads : Type 0 where
  pub chunks : List (List ℕ)
  pub error : Bool

-- `_crc = (_crc << 8) ^ crctab[((_crc >> 24) ^ c) & 0xFF]`, with `_crc` the 64 bits of a `long`. The
-- mask takes bits that a signed shift and a signed `char` have in common with unsigned ones.
unfoldable pub crc_step : ℕ → ℕ → ℕ
crc_step crc c =
    bit_xor (crc * 2 ^ 8 % 2 ^ 64) (get_or crctab (bit_and (bit_xor (crc / 2 ^ 24) c) 0xFF) 0)

-- A buffer, byte by byte.
unfoldable pub crc_bytes : ℕ → List ℕ → ℕ
unfolding crc_step
crc_bytes crc [] = crc
crc_bytes crc (c ∷ cs) = crc_bytes (crc_step crc c) cs

-- The loop over the buffers, with the length counted.
unfoldable pub crc_chunks : ℕ → ℕ → List (List ℕ) → ℕ × ℕ
unfolding crc_bytes
crc_chunks crc len [] = (crc, len)
crc_chunks crc len (buf ∷ bufs) = crc_chunks (crc_bytes crc buf) (len + length buf) bufs

-- `for (; _length; _length >>= 8)`, on fuel.
unfoldable pub crc_length : ℕ → ℕ → ℕ → ℕ
unfolding crc_step
crc_length zero crc len = crc
crc_length (suc fuel) crc len =
    let rest = crc_length fuel (crc_step crc len) (len / 2 ^ 8) in if len == 0 then crc else rest

-- `~_crc & 0xFFFFFFFF`
unfoldable pub crc_final : ℕ → ℕ
crc_final crc = bit_and (2 ^ 64 - 1 - crc) 0xFFFFFFFF

-- `none` for a file that cannot be opened, or that cannot be read to its end.
unfoldable pub checksum_calc : Option Reads → Option Checksum
unfolding crc_chunks crc_length crc_final
checksum_calc none = none
checksum_calc (some file) =
    if file.error
    then none
    else (let (crc, len) = crc_chunks 0 0 file.chunks in
        some (record { crc = crc_final (crc_length len crc len); filesize = len }))
