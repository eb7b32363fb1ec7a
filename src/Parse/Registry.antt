-- ===== src/Parse/Registry.antt =====
-- The global list of scanners: `scanner_compare` of src/scanner.c and `scanner_add_or_reuse` of
-- src/magicrescue.c. A pointer to an element of the list is its index.
use magicrescue.Base.{
  ℕ, zero, suc, Bool, true, false, ◌&&◌, Option, none, some, List, [], ◌∷◌, ◌++◌, ◌==◌,
  if◌then◌else◌, length,
}
use magicrescue.Recipe.{Recipe}
use magicrescue.Scanner.{Scanner, ScanFunc, unset, scan_char, scan_block, scan_string}
use magicrescue.Parse.Scanf.{bytes_eq}

-- Equal functions with equal parameters; the union is compared byte by byte, but two strings of
-- one length are compared by what they hold.
unfoldable pub func_eq : ScanFunc → ScanFunc → Bool
unfolding bytes_eq
func_eq unset unset = true
func_eq (scan_char c) (scan_char d) = c == d
func_eq (scan_block b) (scan_block d) = b == d
func_eq (scan_string s c off) (scan_string t d off') = bytes_eq s t
func_eq _ _ = false

-- `scanner_compare (a, b) == 0`.
unfoldable pub scanner_compare : Scanner → Scanner → Bool
unfolding func_eq
scanner_compare a b = func_eq a.func b.func && a.offset == b.offset

-- The index of the first scanner that is equal to the given one.
unfoldable pub find_scanner : List Scanner → Scanner → Option ℕ
unfolding scanner_compare
find_scanner [] sc = none
find_scanner (el ∷ els) sc =
    if scanner_compare sc el
    then some 0
    else elim (find_scanner els sc) [ none ↦ none | some i ↦ some (suc i) ]

unfoldable pub scanner_add_or_reuse : List Scanner → Scanner → List Scanner × ℕ
unfolding find_scanner
scanner_add_or_reuse els sc = elim (find_scanner els sc) [
  | some i ↦ (els, i)
  | none ↦ (els ++ sc ∷ [], length els)
]

-- `array_add (&scanner->recipes, &r)` at the scanner of index `i`.
unfoldable pub add_recipe : List Scanner → ℕ → Recipe → List Scanner
add_recipe [] i r = []
add_recipe (el ∷ els) zero r = record el { recipes = el.recipes ++ r ∷ [] } ∷ els
add_recipe (el ∷ els) (suc i) r = el ∷ add_recipe els i r
