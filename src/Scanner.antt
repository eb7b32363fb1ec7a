-- ===== src/Scanner.antt =====
-- src/scanner.c: the three functions that look for the start of a file, and the choice of the
-- character that a string search looks for first.
pub mod Score
pub mod Search
pub mod Magic
use magicrescue.Base.{
  ℕ, zero, suc, ◌+◌, ◌-◌, ◌%◌, bit_and, Bool, true, false, ◌&&◌, Option, none, some, List, [], ◌∷◌,
  ltb, ◌==◌, if◌then◌else◌, length,
}
use magicrescue.Memory.{Memory, memchr, holds}
use magicrescue.Recipe.{Recipe}
use Score.{score}

-- `func` of `struct scanner` with its part of `union scan_param`. `unset` is a null `func`.
pub data ScanFunc : Type 0 where
  unset : ScanFunc
  scan_char : ℕ → ScanFunc
  scan_block : ℕ → ScanFunc
  scan_string : List ℕ → ℕ → ℕ → ScanFunc

pub record Scanner : Type 0 where
  pub func : ScanFunc
  pub offset : ℕ
  pub extra_len : ℕ
  pub recipes : List Recipe

abbrev pub scanner_new : Scanner
scanner_new = record { func = unset; offset = 0; extra_len = 0; recipes = [] }

-- A pointer into the buffer is its address; a null pointer is `none`.
unfoldable pub scanner_char : Memory → ℕ → ℕ → ℕ → Option ℕ
scanner_char mem scanbuf len c = memchr mem scanbuf c len

unfoldable pub scanner_block : ℕ → ℕ → ℕ → ℕ → Option ℕ
scanner_block scanbuf len block offset =
    let extrabytes = bit_and offset (block - 1) in
    if extrabytes == 0
    then some scanbuf
    else if ltb (block - extrabytes) len
    then some (scanbuf + block - extrabytes)
    else none

-- What the loop of `scanner_string` does with the address that `memchr` returns; `rest` is the loop
-- from its next pointer on.
abbrev pub string_hit : Memory → List ℕ → ℕ → (ℕ → Option ℕ) → Option ℕ → Option ℕ
string_hit mem str magicoff rest none = none
string_hit mem str magicoff rest (some q) = elim (holds mem (q - magicoff) str) [
  | true ↦ some (q - magicoff)
  | false ↦ rest (q - magicoff + (magicoff + 1))
]

-- The loop of `scanner_string` at the pointer `p`. A round moves `p` forward, so one round for
-- each byte of the buffer, and one more, are enough fuel.
unfoldable pub string_loop : ℕ → Memory → ℕ → ℕ → List ℕ → ℕ → ℕ → ℕ → Option ℕ
string_loop zero mem scanbuf len str magicchar magicoff p = none
string_loop (suc fuel) mem scanbuf len str magicchar magicoff p = elim (ltb (p - scanbuf) len) [
  | false ↦ none
  | true ↦
      string_hit mem str magicoff (string_loop fuel mem scanbuf len str magicchar magicoff)
        (memchr mem p magicchar (len - (p - scanbuf)))
]

unfoldable pub scanner_string : Memory → ℕ → ℕ → List ℕ → ℕ → ℕ → Option ℕ
scanner_string mem scanbuf len str magicchar magicoff =
    string_loop (suc len) mem scanbuf (len + magicoff) str magicchar magicoff (scanbuf + magicoff)

-- The loop of `scanner_string_init` from index `i` on: the winner and its offset.
unfoldable pub string_init_loop : List ℕ → ℕ → ℕ → ℕ → ℕ × ℕ
string_init_loop [] i winner winner_off = (winner, winner_off)
string_init_loop (c ∷ s) i winner winner_off =
    let better = ltb (score c) (score winner) in
    string_init_loop s (i + 1) (if better then c else winner) (if better then i else winner_off)

-- The parameter of a string scanner: the string, `magicchar` and `magicoff`.
unfoldable pub scanner_string_init : List ℕ → ScanFunc
unfolding string_init_loop
scanner_string_init s = let (winner, off) = string_init_loop s 0 0 0 in scan_string s winner off

-- The call `scanner->func(scanbuf, len, &scanner->param, offset)`.
unfoldable pub run_scan : Memory → ScanFunc → ℕ → ℕ → ℕ → Option ℕ
unfolding scanner_char scanner_block scanner_string
run_scan mem unset scanbuf len offset = none
run_scan mem (scan_char c) scanbuf len offset = scanner_char mem scanbuf len c
run_scan mem (scan_block b) scanbuf len offset = scanner_block scanbuf len b offset
run_scan mem (scan_string s c off) scanbuf len offset = scanner_string mem scanbuf len s c off
