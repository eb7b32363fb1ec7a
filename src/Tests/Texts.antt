-- ===== src/Tests/Texts.antt =====
-- The theorems on recipes and their texts, at small texts.
use magicrescue.Base.{
  All, ℕ, ◌≤◌, ◌<◌, ◌%◌, ◌≡◌, ◌↔◌, refl, ap, none, some, List, [], ◌∷◌, length, arith, leb,
  if◌then◌else◌,
}
use magicrescue.Recipe.{recipe_init}
use magicrescue.Recipe.{op_string}
use magicrescue.Scanner.{scanner_new, scanner_string_init}
use magicrescue.Util.Hex.{hextoll}
use magicrescue.Util.Hex.Value.{hex_value, hextoll-value}
use magicrescue.Util.Escape.{string_init}
use magicrescue.Util.Escape.Grammar.{
  Spells, string_init-Spells, length-string_init, escape_all, string_init-escape_all,
}
use magicrescue.Parse.{
  Globals, Parse, Parsed, ok, failed, undefined, negative_offset, parse_recipe, make_scanner,
  make_operation, round_overlap,
}
use magicrescue.Parse.Scanf.{codes, scan_directive, bytes_eq, scan_word_after, strncmp_eq}
use magicrescue.Parse.Registry.{add_recipe, scanner_add_or_reuse}
use magicrescue.Parse.Rounding.{round_overlap_bounds}
use magicrescue.ScanDisk.{scan_disk}
use magicrescue.ScanDisk.Genuine.{Genuine}
use magicrescue.Program.{parse_recipe-Genuine}
use magicrescue.Tests.Concrete.{file, the_device, two_bytes, start}
use magicrescue.Parse.Valid.{GlobalsFit, parse_recipe-GlobalsFit}

abbrev no_globals : Globals
no_globals = record { scanners = []; overlap = 0 }

abbrev lines : List (List ℕ)
lines = codes "0 string ab\n" ∷ codes "2 string !\n" ∷ codes "command cat\n" ∷ []

abbrev the_globals : Globals
the_globals = record {
  scanners =
      record scanner_new {
        func = scanner_string_init (string_init (codes "ab"));
        offset = 0;
        extra_len = 1;
        recipes =
            record recipe_init {
              name = codes "r";
              ops = record { func = op_string (string_init (codes "!")); offset = 2 } ∷ [];
              command = some (codes "cat");
            }
            ∷ [];
      }
      ∷ [];
  overlap = 8;
}

overlap_of : Parsed Parse → ℕ
overlap_of (ok st) = st.overlap
overlap_of failed = 0
overlap_of undefined = 0
overlap_of negative_offset = 0

parse_recipe-GlobalsFit_example :
    (no_globals.overlap ≤ the_globals.overlap) × GlobalsFit the_globals
unfolding parse_recipe overlap_of scan_directive bytes_eq make_scanner string_init make_operation
    scan_word_after strncmp_eq add_recipe scanner_add_or_reuse
parse_recipe-GlobalsFit_example =
    parse_recipe-GlobalsFit none (codes "r") lines no_globals the_globals tt tt
      (λ st e. let h : 3 ≡ st.overlap = ap overlap_of e in omega (arith, h)) refl

hextoll-value_example :
    hextoll (codes "1fA") ≡ (if leb 3 16 then some (hex_value (codes "1fA")) else none)
hextoll-value_example = hextoll-value (codes "1fA")

string_init-Spells_example :
    (string_init (codes "a\\n") ≡ b'a' ∷ 10 ∷ []) ↔ Spells (codes "a\\n") (b'a' ∷ 10 ∷ [])
string_init-Spells_example = string_init-Spells (codes "a\\n") (b'a' ∷ 10 ∷ [])

length-string_init_example : length (string_init (codes "a\\n")) ≤ 3
length-string_init_example = length-string_init (codes "a\\n")

string_init-escape_all_example : string_init (escape_all (0 ∷ 255 ∷ [])) ≡ 0 ∷ 255 ∷ []
string_init-escape_all_example =
    string_init-escape_all (0 ∷ 255 ∷ []) (omega arith, (omega arith, tt))

round_overlap_bounds_example :
    (9 ≤ round_overlap 9) × (round_overlap 9 < 17) × (round_overlap 9 % 8 ≡ 0)
round_overlap_bounds_example = round_overlap_bounds 9 (omega arith)

parse_recipe-Genuine_example :
    All
      (Genuine two_bytes the_device the_globals.scanners 8)
      (scan_disk two_bytes the_device the_globals.scanners 8 file 0 0 start).1.scan.found
unfolding parse_recipe overlap_of scan_directive bytes_eq make_scanner string_init make_operation
    scan_word_after strncmp_eq add_recipe scanner_add_or_reuse
parse_recipe-Genuine_example =
    parse_recipe-Genuine two_bytes the_device none (codes "r") lines no_globals the_globals file 0 0
      start tt tt (λ st e. let h : 3 ≡ st.overlap = ap overlap_of e in omega (arith, h)) refl refl
      tt
