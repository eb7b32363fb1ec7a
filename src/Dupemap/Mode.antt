-- ===== src/Dupemap/Mode.antt =====
-- `parse_mode` of src/dupemap.c: from the names of operations to the mode.
pub mod Table
use magicrescue.Base.{
  ℕ, ◌+◌, bit_or, Bool, true, false, ◌||◌, List, [], ◌∷◌, ◌++◌, ◌==◌, if◌then◌else◌,
}
use magicrescue.Parse.Scanf.{bytes_eq, codes}

-- `enum operation` and `enum mode`.
abbrev pub op_scan : ℕ
op_scan = 1

abbrev pub op_report : ℕ
op_report = 2

abbrev pub op_delete : ℕ
op_delete = 4

abbrev pub op_hasdb : ℕ
op_hasdb = 8

abbrev pub mode_readdb : ℕ
mode_readdb = 1

abbrev pub mode_writedb : ℕ
mode_writedb = 2

abbrev pub mode_delete : ℕ
mode_delete = 4

abbrev pub mode_report : ℕ
mode_report = 8

abbrev pub mode_tempdb : ℕ
mode_tempdb = 16

abbrev pub opnames : List (List ℕ × ℕ)
opnames = (codes "scan", op_scan) ∷ (codes "report", op_report) ∷ (codes "delete", op_delete) ∷ []

abbrev pub op2mode : List (ℕ × ℕ)
op2mode =
    (bit_or op_hasdb op_scan, mode_writedb)
    ∷ (bit_or (bit_or op_hasdb op_scan) op_report, bit_or mode_writedb mode_report)
    ∷ (bit_or op_hasdb op_report, bit_or mode_readdb mode_report)
    ∷ (bit_or op_hasdb op_delete, bit_or mode_readdb mode_delete)
    ∷ (
      bit_or (bit_or op_hasdb op_delete) op_report,
      bit_or (bit_or mode_readdb mode_delete) mode_report,
    )
    ∷ (op_report, bit_or mode_tempdb mode_report)
    ∷ (op_delete, bit_or mode_tempdb mode_delete)
    ∷ (bit_or op_delete op_report, bit_or (bit_or mode_tempdb mode_delete) mode_report)
    ∷ (bit_or op_scan op_report, bit_or mode_tempdb mode_report)
    ∷ (bit_or op_scan op_delete, bit_or mode_tempdb mode_delete)
    ∷ (
      bit_or (bit_or op_scan op_delete) op_report,
      bit_or (bit_or mode_tempdb mode_delete) mode_report,
    )
    ∷ []

-- The tokens of `strtok (str, ", ")`, with `cur` what is read of the one at hand.
abbrev pub add_token : List ℕ → List (List ℕ) → List (List ℕ)
add_token [] toks = toks
add_token (c ∷ cur) toks = (c ∷ cur) ∷ toks

unfoldable pub tokens : List ℕ → List ℕ → List (List ℕ)
tokens cur [] = add_token cur []
tokens cur (c ∷ str) =
    let stop = add_token cur (tokens [] str) in
    let more = tokens (cur ++ c ∷ []) str in if c == b',' || c == b' ' then stop else more

-- The inner loop: every name that is the token's sets its bit.
unfoldable pub token_op : List ℕ → List (List ℕ × ℕ) → ℕ → ℕ
token_op tok [] op = op
token_op tok (el ∷ els) op = token_op tok els (if bytes_eq tok el.0 then bit_or op el.1 else op)

unfoldable pub tokens_op : List (List ℕ) → ℕ → ℕ
unfolding token_op
tokens_op [] op = op
tokens_op (tok ∷ toks) op = tokens_op toks (token_op tok opnames op)

unfoldable pub mode_of : List (ℕ × ℕ) → ℕ → ℕ
mode_of [] op = 0
mode_of (el ∷ els) op = let rest = mode_of els op in if el.0 == op then el.1 else rest

unfoldable pub parse_mode : List ℕ → Bool → ℕ
unfolding tokens tokens_op mode_of
parse_mode str hasdb =
    let op = tokens_op (tokens [] str) 0 in
    mode_of op2mode (if hasdb then bit_or op op_hasdb else op)
