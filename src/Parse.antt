-- ===== src/Parse.antt =====
-- `parse_recipe` of src/magicrescue.c, line by line, with the list of scanners and the overlap that
-- it maintains. A line is what `fgets` returns, its newline included.
pub mod Scanf
pub mod Registry
pub mod Rounding
pub mod Fits
pub mod Directives
pub mod Valid
use magicrescue.Base.{
  ℕ, ◌+◌, ◌-◌, ◌^◌, bit_and, Bool, true, false, ◌&&◌, ◌||◌, not, Option, none, some, List, [], ◌∷◌,
  ◌++◌, ltb, ◌==◌, if◌then◌else◌, length, get_or, take, drop,
}
use magicrescue.Base.Int.{ℤ, pos, negsuc}
use magicrescue.Util.Hex.{hextoll}
use magicrescue.Util.Escape.{string_init}
use magicrescue.Recipe.{Recipe, Operation, OpFunc, op_string, op_int32, recipe_init}
use magicrescue.Scanner.{
  Scanner, ScanFunc, unset, scan_char, scan_block, scan_string, scanner_new, scanner_string_init,
}
use Scanf.{
  codes, bytes_eq, strncmp_eq, scan_directive, scan_two_words, scan_word_after, scan_number_after,
}
use Registry.{scanner_add_or_reuse, add_recipe}

-- `failed` is -1. `undefined` is a line at which C has no defined behaviour: a shift by 64 or more.
-- `negative_offset` is not an error of the program, which goes on with such a line and may accept the
-- recipe; what it does from that line on is not followed here, since offsets are natural numbers.
pub data Parsed {ℓ} (A : Type ℓ) : Type ℓ where
  ok : A → Parsed A
  failed : Parsed A
  undefined : Parsed A
  negative_offset : Parsed A

infixl 5 ◌>>=◌
abbrev pub ◌>>=◌ {ℓ κ} : {A : Type ℓ} {B : Type κ} → Parsed A → (A → Parsed B) → Parsed B
ok a >>= f = f a
failed >>= f = failed
undefined >>= f = undefined
negative_offset >>= f = negative_offset

-- The variables of the loop.
pub record Parse : Type 0 where
  pub scanner : Option Scanner
  pub recipe : Recipe
  pub overlap : ℕ

abbrev pub is_text : List ℕ → Bool
is_text opname = bytes_eq opname (codes "string") || bytes_eq opname (codes "char")

-- A scanner made of the first text operation, and the length that it may read: by the length of
-- its string, the empty one, one of a character, or a longer one.
unfoldable pub make_scanner : ℕ → List ℕ → Scanner × ℕ
make_scanner offset [] = (record scanner_new { offset = offset; extra_len = offset - 1 }, 0)
make_scanner offset (c ∷ []) =
    (record scanner_new { func = scan_char c; offset = offset; extra_len = offset }, 1)
make_scanner offset (c ∷ d ∷ s) =
    let len = length (c ∷ d ∷ s) in
    (
      record scanner_new {
        func = scanner_string_init (c ∷ d ∷ s);
        offset = offset;
        extra_len = offset + len - 1;
      },
      len,
    )

-- `param` of an `int32`: a value and a mask, each of at most 15 digits.
unfoldable pub make_int32 : List ℕ → Parsed OpFunc
make_int32 param = elim (scan_two_words param) [
  | none ↦ failed
  | some (buf_val, buf_mask) ↦ elim (hextoll buf_val) [
    | none ↦ undefined
    | some val ↦ elim (hextoll buf_mask) [
      | none ↦ undefined
      | some mask ↦ ok (op_int32 (bit_and val mask) mask)
    ]
  ]
]

-- The operation of a line and its length; an unknown name leaves the length at 0.
unfoldable pub make_operation : List ℕ → List ℕ → Parsed (OpFunc × ℕ)
make_operation opname param =
    if is_text opname
    then ok (op_string (string_init param), length (string_init param))
    else if bytes_eq opname (codes "int32")
    then (do f ← make_int32 param; ok (f, 4))
    else failed

-- `if (len <= 0)` fail, and else let the overlap grow to the end of what the line reads.
unfoldable pub grow_overlap : Parse → ℕ → ℕ → Parsed Parse
grow_overlap st offset len =
    if len == 0
    then failed
    else ok
        (record st { overlap = if ltb st.overlap (len + offset) then len + offset else st.overlap })

unfoldable pub add_operation : Parse → ℕ → List ℕ → List ℕ → Parsed Parse
unfolding grow_overlap
add_operation st offset opname param = do
  op ← make_operation opname param
  let r = st.recipe
  let ops = r.ops ++ record { func = op.0; offset = offset } ∷ []
  grow_overlap (record st { recipe = record r { ops = ops } }) offset op.1

-- A line of an offset, an operation's name and its parameter.
unfoldable pub parse_directive : Parse → ℕ → List ℕ → List ℕ → Parsed Parse
unfolding add_operation grow_overlap
parse_directive st offset opname param = elim st.scanner [
  | some sc ↦ add_operation st offset opname param
  | none ↦
      if is_text opname
      then (let (sc, len) = make_scanner offset (string_init param) in
          if len == 0
          then add_operation (record st { scanner = some sc }) offset opname param
          else grow_overlap (record st { scanner = some sc }) offset len)
      else add_operation st offset opname param
]

-- Any other line: the settings of the recipe.
unfoldable pub parse_setting : Recipe → List ℕ → Parsed Recipe
parse_setting r buf = elim (scan_word_after (codes "extension") 63 buf) [
  | some word ↦ ok (record r { extension = word })
  | none ↦
      if strncmp_eq buf (codes "command ")
      then ok (record r { command = some (drop 8 buf) })
      else if strncmp_eq buf (codes "postextract ")
      then ok (record r { postextract = some (drop 12 buf) })
      else if strncmp_eq buf (codes "rename ")
      then ok (record r { rename = some (drop 7 buf) })
      else elim (scan_number_after (codes "min_output_file") buf) [
        | some n ↦ ok (record r { min_output_file = n })
        | none ↦ elim (scan_number_after (codes "allow_overlap") buf) [
          | some n ↦ ok (record r { allow_overlap = n })
          | none ↦ failed
        ]
      ]
]

unfoldable pub parse_other : Parse → List ℕ → Parsed Parse
unfolding parse_setting
parse_other st [] = ok st
parse_other st (c ∷ buf) =
    if c == b'#'
    then ok st
    else do r ← parse_setting st.recipe (c ∷ buf); ok (record st { recipe = r })

-- The body of the loop. `buf[strlen(buf) - 1] = '\0'` takes the last character, whatever it is.
unfoldable pub parse_line : Parse → List ℕ → Parsed Parse
unfolding parse_directive parse_other
parse_line st line =
    let buf = take (length line - 1) line in
    elim (scan_directive buf) [
      | none ↦ parse_other st buf
      | some (negsuc n, opname, param) ↦ negative_offset
      | some (pos offset, opname, param) ↦ parse_directive st offset opname param
    ]

unfoldable pub parse_lines : Parse → List (List ℕ) → Parsed Parse
unfolding parse_line
parse_lines st [] = ok st
parse_lines st (line ∷ lines) = do st' ← parse_line st line; parse_lines st' lines

-- The globals that `parse_recipe` changes.
pub record Globals : Type 0 where
  pub scanners : List Scanner
  pub overlap : ℕ

-- `overlap += sizeof(long) - 1; overlap &= ~(sizeof(long) - 1);` with a `long` of 8 bytes.
unfoldable pub round_overlap : ℕ → ℕ
round_overlap overlap = bit_and (overlap + 7) (2 ^ 64 - 8)

-- The end of `parse_recipe`: a scanner and a command are needed.
unfoldable pub add_parsed : Globals → Parse → Option Scanner → Option (List ℕ) → Parsed Globals
unfolding round_overlap
add_parsed g st none command = failed
add_parsed g st (some sc) none = failed
add_parsed g st (some sc) (some command) =
    let (scanners, i) = scanner_add_or_reuse g.scanners sc in
    ok (record { scanners = add_recipe scanners i st.recipe; overlap = round_overlap st.overlap })

abbrev pub parse_start : Option Scanner → List ℕ → ℕ → Parse
parse_start global_scanner name overlap = record {
  scanner = global_scanner;
  recipe = record recipe_init { name = name };
  overlap = overlap;
}

-- `parse_recipe` on the lines of a file that could be opened and read, `name` its base name.
unfoldable pub parse_recipe : Option Scanner → List ℕ → List (List ℕ) → Globals → Parsed Globals
unfolding parse_lines add_parsed
parse_recipe global_scanner name lines g = do
  st ← parse_lines (parse_start global_scanner name g.overlap) lines
  add_parsed g st st.scanner st.recipe.command
