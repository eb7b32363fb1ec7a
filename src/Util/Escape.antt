-- ===== src/Util/Escape.antt =====
-- `string_init` of src/util.c, which turns a string with escape sequences into an array of bytes.
pub mod Letters
pub mod Grammar
use magicrescue.Base.{
  ℕ, zero, suc, ◌*◌, ◌%◌, ◌<◌, bit_or, Bool, ◌&&◌, List, [], ◌∷◌, ltb, ◌==◌, if◌then◌else◌, length,
  get_or, drop,
}
use magicrescue.Util.Hex.{hex2num}

-- The byte that a letter after a backslash stands for.
unfoldable pub escape_letter : ℕ → ℕ
escape_letter c =
    if c == b'a'
    then 7
    else if c == b'b'
    then 8
    else if c == b'f'
    then 12
    else if c == b'n'
    then 10
    else if c == b'r'
    then 13
    else if c == b't'
    then 9
    else if c == b'v'
    then 11
    else c

-- The byte written by `\xHH`, cut to a `char`.
unfoldable pub hex_byte : ℕ → ℕ → ℕ
hex_byte h l = bit_or (hex2num h * 16) (hex2num l) % 256

-- The loop with `src` from index `i` on; what is read past its end is the terminator. The test
-- `i + 3 < slen` is one on the length that is left. Each round takes at least one character, so
-- the length is enough fuel.
unfoldable pub string_init_from : ℕ → List ℕ → List ℕ
string_init_from zero src = []
string_init_from (suc fuel) [] = []
string_init_from (suc fuel) (c ∷ src) =
    let hex = hex_byte (get_or src 1 0) (get_or src 2 0) ∷ string_init_from fuel (drop 3 src) in
    let letter = escape_letter (get_or src 0 0) ∷ string_init_from fuel (drop 1 src) in
    let plain = c ∷ string_init_from fuel src in
    if c == b'\\'
    then (if get_or src 0 0 == b'x' && ltb 2 (length src) then hex else letter)
    else plain

-- The bytes that `dst->s` holds; their number is `dst->l`.
unfoldable pub string_init : List ℕ → List ℕ
unfolding string_init_from escape_letter hex_byte
string_init src = string_init_from (length src) src
