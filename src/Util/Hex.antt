-- ===== src/Util/Hex.antt =====
-- `hex2num` and `hextoll` of src/util.c.
pub mod Value
use magicrescue.Base.{
  ℕ, ◌+◌, ◌-◌, ◌*◌, ◌%◌, ◌^◌, bit_or, Bool, ◌&&◌, Option, none, some, List, [], ◌∷◌, leb, ltb,
  if◌then◌else◌, length,
}

abbrev between : ℕ → ℕ → ℕ → Bool
between lo hi c = leb lo c && leb c hi

-- The value of a hexadecimal digit, and 0 for any other character.
unfoldable pub hex2num : ℕ → ℕ
hex2num c =
    if between b'0' b'9' c
    then c - b'0'
    else if between b'a' b'f' c
    then c - b'a' + 10
    else if between b'A' b'F' c
    then c - b'A' + 10
    else 0

-- The loop from index `i` on. A shift by 64 or more is undefined in C, and is `none` here; the
-- number is the 64-bit pattern of the `long long`.
unfoldable pub hextoll_from : ℕ → ℕ → List ℕ → ℕ → Option ℕ
hextoll_from len i [] result = some result
hextoll_from len i (c ∷ cs) result =
    let shift = 4 * (len - 1 - i) in
    let rest = hextoll_from len (i + 1) cs (bit_or result (hex2num c * 2 ^ shift % 2 ^ 64)) in
    if ltb shift 64 then rest else none

unfoldable pub hextoll : List ℕ → Option ℕ
unfolding hextoll_from
hextoll str = hextoll_from (length str) 0 str 0
