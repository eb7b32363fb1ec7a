-- ===== src/Textextract/Rules.antt =====
-- `make_luts` of tools/textextract.c: the tables of scores and of repetitions.
use magicrescue.Base.{
  ℕ, ◌<◌, ◌≡◌, refl, Bool, true, false, ◌&&◌, ◌||◌, List, [], ◌∷◌, leb, ◌==◌, if◌then◌else◌, ==_iff,
  and_true, arith,
}
use magicrescue.Base.Int.{ℤ, pos, negsuc}
use magicrescue.Base.Table.{all_below, all_below-at}
use magicrescue.Parse.Scanf.{codes}
use magicrescue.Textextract.{Entry}

pub record Rule : Type 0 where
  pub entry : Entry
  pub ranges : List ℕ

abbrev pub rule : ℤ → ℕ → List ℕ → Rule
rule score rep ranges = record { entry = record { score = score; rep = rep }; ranges = ranges }

abbrev pub rules : List Rule
rules =
    rule (pos 0) 120 (0x01 ∷ b'-' ∷ 0xFF ∷ [])
    ∷ rule (pos 4) 0 (0x01 ∷ b'-' ∷ 0x1F ∷ [])
    ∷ rule (pos 1) 8 (0x80 ∷ b'-' ∷ 0xFF ∷ [])
    ∷ rule (pos 2) 0 (0x7F ∷ b'-' ∷ 0x9F ∷ [])
    ∷ rule (pos 1) 0 (0x82 ∷ b'-' ∷ 0x8C ∷ 0x91 ∷ b'-' ∷ 0x9C ∷ 0x9F ∷ [])
    ∷ rule (pos 2) 0 (0x04 ∷ 0x07 ∷ 0x08 ∷ 0x0C ∷ 0x1B ∷ [])
    ∷ rule (pos 10) 0 []
    ∷ rule (pos 3) 0 (0xFF ∷ [])
    ∷ rule (negsuc 0) 180 (b' ' ∷ 9 ∷ 13 ∷ 10 ∷ [])
    ∷ rule (negsuc 1) 80 (codes "a-zA-Z0-9")
    ∷ []

-- The rounds of the `do` loop after the first: a character, or the first and the last one of a range.
-- A `-` at the very end makes the range empty, and is a character of its own in the next round.
unfoldable pub ranges_rest : List ℕ → List (ℕ × ℕ)
ranges_rest [] = []
ranges_rest (a ∷ []) = (a, a) ∷ []
ranges_rest (a ∷ d ∷ []) = if d == b'-' then (a, 0) ∷ (d, d) ∷ [] else (a, a) ∷ (d, d) ∷ []
ranges_rest (a ∷ d ∷ b ∷ rest) = elim (d == b'-') [
  | true ↦ (a, b) ∷ ranges_rest rest
  | false ↦ (a, a) ∷ ranges_rest (d ∷ b ∷ rest)
]

-- The first round sees the end of an empty string as the character 0.
unfoldable pub ranges_of : List ℕ → List (ℕ × ℕ)
unfolding ranges_rest
ranges_of [] = (0, 0) ∷ []
ranges_of (a ∷ rest) = ranges_rest (a ∷ rest)

unfoldable pub in_ranges : List (ℕ × ℕ) → ℕ → Bool
in_ranges [] i = false
in_ranges ((a, b) ∷ rs) i = leb a i && leb i b || in_ranges rs i

-- The entry of the character `i` after the rules, on top of what it was before.
unfoldable pub make_luts : List Rule → Entry → ℕ → Entry
unfolding ranges_of in_ranges
make_luts [] old i = old
make_luts (r ∷ rs) old i =
    make_luts rs (if in_ranges (ranges_of r.ranges) i then r.entry else old) i

-- The tables, which are 0 at the start.
unfoldable pub lut : ℕ → Entry
unfolding make_luts
lut = make_luts rules (record { score = pos 0; rep = 0 })

abbrev between : ℕ → ℕ → ℕ → Bool
between a b c = leb a c && leb c b

-- The classes of ISO 8859-1, told apart from the most special one on.
abbrev pub described : ℕ → Entry
described c =
    if between b'a' b'z' c || (between b'A' b'Z' c || between b'0' b'9' c)
    then record { score = negsuc 1; rep = 80 }
    else if c == b' ' || (c == 9 || (c == 10 || c == 13))
    then record { score = negsuc 0; rep = 180 }
    else if c == 0xFF
    then record { score = pos 3; rep = 0 }
    else if c == 0
    then record { score = pos 10; rep = 0 }
    else if c == 0x04 || (c == 0x07 || (c == 0x08 || (c == 0x0C || c == 0x1B)))
    then record { score = pos 2; rep = 0 }
    else if between 0x82 0x8C c || (between 0x91 0x9C c || c == 0x9F)
    then record { score = pos 1; rep = 0 }
    else if between 0x7F 0x9F c
    then record { score = pos 2; rep = 0 }
    else if leb 0x80 c
    then record { score = pos 1; rep = 8 }
    else if leb c 0x1F
    then record { score = pos 4; rep = 0 }
    else record { score = pos 0; rep = 120 }

ℤ_eq : ℤ → ℤ → Bool
ℤ_eq (pos a) (pos b) = a == b
ℤ_eq (negsuc a) (negsuc b) = a == b
ℤ_eq _ _ = false

ℤ_eq_sound : (a b : ℤ) → ℤ_eq a b ≡ true → a ≡ b
unfolding ℤ_eq
ℤ_eq_sound (pos a) (pos b) h = ground arith
ℤ_eq_sound (negsuc a) (negsuc b) h = ground arith
ℤ_eq_sound (pos a) (negsuc b) h = absurd (cc)
ℤ_eq_sound (negsuc a) (pos b) h = absurd (cc)

abbrev entry_test : ℕ → Bool
entry_test c = ℤ_eq (lut c).score (described c).score && (lut c).rep == (described c).rep

entries : all_below 256 entry_test ≡ true
unfolding all_below lut ℤ_eq
entries = refl

Entry-ext : (a b : Entry) → a.score ≡ b.score → a.rep ≡ b.rep → a ≡ b
Entry-ext a b h k = cc

-- Every byte has the score and the number of repetitions of its class: letters and digits, white
-- space, the byte 0xFF, NUL, the control characters that are rarely used, those of Windows, other
-- codes that are no character, the rest above 0x80, other control characters, all else.
pub lut-described : (c : ℕ) → c < 256 → lut c ≡ described c
lut-described c h =
    let (s, r) =
      and_true (ℤ_eq (lut c).score (described c).score) ((lut c).rep == (described c).rep)
        (all_below-at 256 entry_test c entries h) in
    Entry-ext (lut c) (described c) (ℤ_eq_sound (lut c).score (described c).score s)
      ((==_iff (lut c).rep (described c).rep).0 r)
