-- ===== src/Program/Options.antt =====
-- The options of `main` of src/magicrescue.c, and the recipes that they name. `getopt` has taken the
-- options apart: each is its letter and its argument.
use magicrescue.Base.{
  ℕ, ◌-◌, bit_and, bit_or, Bool, true, false, Option, none, some, List, [], ◌∷◌, ◌++◌, ◌==◌,
  if◌then◌else◌, take, ltb,
}
use magicrescue.Base.Int.{ℤ, pos, negsuc}
use magicrescue.Scanner.{Scanner, scanner_new, scan_block}
use magicrescue.Extract.{path_max}
use magicrescue.Parse.{Parsed, ok, failed, undefined, negative_offset, ◌>>=◌, Globals, parse_recipe}
use magicrescue.Parse.Scanf.{codes}

-- The variables of `main` and the globals that the options set.
pub record Settings : Type 0 where
  pub globals : Globals
  pub global_scanner : Option Scanner
  pub output_dir : Option (List ℕ)
  pub file_names_from : Option (List ℕ)
  pub start_offset : Option (List ℕ)
  pub machine_output : ℕ

abbrev pub settings : Settings
settings = record {
  globals = record { scanners = []; overlap = 0 };
  global_scanner = none;
  output_dir = none;
  file_names_from = none;
  start_offset = none;
  machine_output = 0;
}

abbrev s_ifdir : ℕ
s_ifdir = 0x4000

abbrev s_ifmt : ℕ
s_ifmt = 0xF000

abbrev has_char : ℕ → List ℕ → Bool
has_char c [] = false
has_char c (x ∷ xs) = if x == c then true else has_char c xs

-- What follows the last slash, or the whole string.
unfoldable pub base_name : List ℕ → List ℕ
base_name [] = []
base_name (c ∷ cs) =
    let rest = base_name cs in if has_char b'/' cs then rest else if c == b'/' then cs else c ∷ cs

-- `atol`, `stat` with the mode of a file, `opendir` with the names in a directory, and the lines of a
-- file, if it can be opened and read; `recipe_path` is the macro RECIPE_PATH.
module _ (atol : List ℕ → ℤ) (stat_mode : List ℕ → Option ℕ)
    (opendir : List ℕ → Option (List (List ℕ))) (lines_of : List ℕ → Option (List (List ℕ)))
    (recipe_path : Option (List ℕ)) where
  -- A block size of more than 1 has to have one bit only.
  unfoldable pub set_block : Settings → ℤ → Parsed Settings
  set_block s (negsuc n) = ok (record s { global_scanner = none })
  set_block s (pos n) =
      if ltb 1 n
      then (if bit_and n (n - 1) == 0
          then ok (record s { global_scanner = some (record scanner_new { func = scan_block n }) })
          else failed)
      else ok (record s { global_scanner = none })

  unfoldable pub set_output_dir : Settings → List ℕ → Parsed Settings
  set_output_dir s optarg = elim (stat_mode optarg) [
    | none ↦ failed
    | some mode ↦
        if bit_and mode s_ifdir == 0 then failed else ok (record s { output_dir = some optarg })
  ]

  abbrev path_in : List ℕ → List ℕ → List ℕ
  path_in dir name = take (path_max - 1) (dir ++ b'/' ∷ name)

  abbrev or_lines : Option (List (List ℕ)) → Option (List (List ℕ)) → Option (List (List ℕ))
  or_lines none other = other
  or_lines (some lines) other = some lines

  -- The search path of `parse_recipe`.
  unfoldable pub open_recipe : List ℕ → Option (List (List ℕ))
  open_recipe file = or_lines (lines_of file) (
      or_lines (lines_of (path_in (codes "recipes") file))
        (elim recipe_path [ none ↦ none | some dir ↦ lines_of (path_in dir file) ]))

  unfoldable pub parse_file : Option Scanner → List ℕ → Globals → Parsed Globals
  unfolding open_recipe base_name
  parse_file scanner file g = elim (open_recipe file) [
    | none ↦ failed
    | some lines ↦ parse_recipe scanner (base_name file) lines g
  ]

  abbrev pub is_hidden : List ℕ → Bool
  is_hidden [] = false
  is_hidden (c ∷ cs) = c == b'.'

  abbrev pub unless_hidden : List ℕ → Globals → Parsed Globals → Parsed Globals
  unless_hidden name g parsed = if is_hidden name then ok g else parsed

  -- The recipes of a directory, but for hidden files.
  unfoldable pub parse_dir : Option Scanner → List ℕ → List (List ℕ) → Globals → Parsed Globals
  unfolding parse_file
  parse_dir scanner dir [] g = ok g
  parse_dir scanner dir (name ∷ names) g = do
    g' ← unless_hidden name g (parse_file scanner (path_in dir name) g)
    parse_dir scanner dir names g'

  abbrev pub is_dir_mode : Option ℕ → Bool
  is_dir_mode none = false
  is_dir_mode (some mode) = bit_and mode s_ifmt == s_ifdir

  unfoldable pub parse_named : Option Scanner → List ℕ → Globals → Parsed Globals
  unfolding parse_dir
  parse_named scanner optarg g =
      if is_dir_mode (stat_mode optarg)
      then elim (opendir optarg) [
        | none ↦ parse_file scanner optarg g
        | some names ↦ parse_dir scanner optarg names g
      ]
      else parse_file scanner optarg g

  abbrev pub with_globals : Settings → Parsed Globals → Parsed Settings
  with_globals s (ok g) = ok (record s { globals = g })
  with_globals s failed = failed
  with_globals s undefined = undefined
  with_globals s negative_offset = negative_offset

  -- OUT_I is 1 and OUT_O is 2.
  abbrev set_output : Settings → List ℕ → Settings
  set_output s optarg =
      let i = if has_char b'i' optarg then bit_or s.machine_output 1 else s.machine_output in
      record s { machine_output = if has_char b'o' optarg then bit_or i 2 else i }

  unfoldable pub set_option : ℕ → List ℕ → Settings → Parsed Settings
  unfolding set_block set_output_dir parse_named
  set_option c optarg s =
      if c == b'b'
      then set_block s (atol optarg)
      else if c == b'd'
      then set_output_dir s optarg
      else if c == b'r'
      then with_globals s (parse_named s.global_scanner optarg s.globals)
      else if c == b'I'
      then ok (record s { file_names_from = some optarg })
      else if c == b'M'
      then ok (set_output s optarg)
      else if c == b'O'
      then ok (record s { start_offset = some optarg })
      else failed

  unfoldable pub parse_options : List (ℕ × List ℕ) → Settings → Parsed Settings
  unfolding set_option
  parse_options [] s = ok s
  parse_options ((c, optarg) ∷ rest) s = do s' ← set_option c optarg s; parse_options rest s'
