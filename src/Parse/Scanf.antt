-- ===== src/Parse/Scanf.antt =====
-- What `parse_recipe` of src/magicrescue.c uses of `sscanf`, `strcmp` and `strncmp`.
use Prim.Native.Char.{code}
use Prim.Native.String.{String}
use magicrescue.Base.{
  ℕ, zero, suc, ◌+◌, ◌-◌, ◌*◌, Bool, true, false, ◌&&◌, ◌||◌, Option, none, some, List, [], ◌∷◌,
  leb, ◌==◌, if◌then◌else◌,
}
use magicrescue.Base.Int.{ℤ, pos, negate}

-- The bytes of an ASCII text.
abbrev pub codes : String → List ℕ
codes String.[] = []
codes (String.◌∷◌ c s) = code c ∷ codes s

-- `strcmp (s, t) == 0`.
unfoldable pub bytes_eq : List ℕ → List ℕ → Bool
bytes_eq [] [] = true
bytes_eq (x ∷ s) (y ∷ t) = x == y && bytes_eq s t
bytes_eq _ _ = false

-- What follows the prefix `t` in `s`.
unfoldable pub after_prefix : List ℕ → List ℕ → Option (List ℕ)
after_prefix s [] = some s
after_prefix [] (y ∷ t) = none
after_prefix (x ∷ s) (y ∷ t) = if x == y then after_prefix s t else none

-- `strncmp (s, t, strlen (t)) == 0`.
unfoldable pub strncmp_eq : List ℕ → List ℕ → Bool
unfolding after_prefix
strncmp_eq s t = elim (after_prefix s t) [ none ↦ false | some r ↦ true ]

abbrev is_space : ℕ → Bool
is_space c = c == b' ' || leb 9 c && leb c 13

abbrev is_digit : ℕ → Bool
is_digit c = leb b'0' c && leb c b'9'

unfoldable pub skip_space : List ℕ → List ℕ
skip_space [] = []
skip_space (c ∷ s) = if is_space c then skip_space s else c ∷ s

-- The digits at the start of a text: their value on top of `acc`, how many, and the rest.
unfoldable pub scan_digits : ℕ → ℕ → List ℕ → ℕ × ℕ × List ℕ
scan_digits acc n [] = (acc, n, [])
scan_digits acc n (c ∷ s) =
    let rest = scan_digits (acc * 10 + (c - b'0')) (n + 1) s in
    if is_digit c then rest else (acc, n, c ∷ s)

unfoldable pub scan_unsigned : List ℕ → Option (ℕ × List ℕ)
unfolding scan_digits
scan_unsigned s = let (v, n, rest) = scan_digits 0 0 s in if n == 0 then none else some (v, rest)

-- `%d` and `%ld`, for a number that fits its type.
unfoldable pub scan_signed : List ℕ → Option (ℤ × List ℕ)
unfolding scan_unsigned
scan_signed [] = none
scan_signed (c ∷ s) =
    if c == b'-'
    then elim (scan_unsigned s) [ none ↦ none | some (v, r) ↦ some (negate (pos v), r) ]
    else elim (scan_unsigned (if c == b'+' then s else c ∷ s)) [
      | none ↦ none
      | some (v, r) ↦ some (pos v, r)
    ]

-- At most `n` characters that are no space, and the rest.
unfoldable pub scan_chars : ℕ → List ℕ → List ℕ × List ℕ
scan_chars zero s = ([], s)
scan_chars (suc n) [] = ([], [])
scan_chars (suc n) (c ∷ s) =
    let rest = scan_chars n s in if is_space c then ([], c ∷ s) else (c ∷ rest.0, rest.1)

abbrev not_empty : List ℕ × List ℕ → Option (List ℕ × List ℕ)
not_empty ([], rest) = none
not_empty (c ∷ w, rest) = some (c ∷ w, rest)

-- `%63s` and its like: spaces, and a word of at most `n` characters.
unfoldable pub scan_word : ℕ → List ℕ → Option (List ℕ × List ℕ)
unfolding skip_space scan_chars
scan_word n s = not_empty (scan_chars n (skip_space s))

-- `sscanf (buf, "%d %63s %n", …) >= 2`: the offset, the name and `buf + param_offset`.
unfoldable pub scan_directive : List ℕ → Option (ℤ × List ℕ × List ℕ)
unfolding skip_space scan_signed scan_word
scan_directive buf = elim (scan_signed (skip_space buf)) [
  | none ↦ none
  | some (offset, rest) ↦ elim (scan_word 63 rest) [
    | none ↦ none
    | some (opname, param) ↦ some (offset, opname, skip_space param)
  ]
]

-- `sscanf (param, "%15s %15s", …) == 2`.
unfoldable pub scan_two_words : List ℕ → Option (List ℕ × List ℕ)
unfolding scan_word
scan_two_words param = elim (scan_word 15 param) [
  | none ↦ none
  | some (a, rest) ↦ elim (scan_word 15 rest) [ none ↦ none | some (b, rest') ↦ some (a, b) ]
]

-- A literal, spaces and a word, as in `"extension %63s"`.
unfoldable pub scan_word_after : List ℕ → ℕ → List ℕ → Option (List ℕ)
unfolding after_prefix scan_word
scan_word_after literal n buf = elim (after_prefix buf literal) [
  | none ↦ none
  | some rest ↦ elim (scan_word n rest) [ none ↦ none | some (w, r) ↦ some w ]
]

-- A literal, spaces and a number, as in `"allow_overlap %d"`.
unfoldable pub scan_number_after : List ℕ → List ℕ → Option ℤ
unfolding after_prefix skip_space scan_signed
scan_number_after literal buf = elim (after_prefix buf literal) [
  | none ↦ none
  | some rest ↦ elim (scan_signed (skip_space rest)) [ none ↦ none | some (v, r) ↦ some v ]
]
