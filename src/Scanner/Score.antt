-- ===== src/Scanner/Score.antt =====
-- The score table of src/scanner.c.
use magicrescue.Base.{ℕ, ◌≡◌, refl, List, [], ◌∷◌, length, get_or}

abbrev pub scoretable : List ℕ
scoretable =
    1747 ∷ 126 ∷ 57 ∷ 39 ∷ 66 ∷ 30 ∷ 26 ∷ 25 ∷ 63 ∷ 45 ∷ 91 ∷ 20 ∷ 35 ∷ 22 ∷ 22 ∷ 36 ∷ 33 ∷ 20 ∷ 21
    ∷ 17 ∷ 25 ∷ 17 ∷ 16 ∷ 15 ∷ 23 ∷ 18 ∷ 16 ∷ 15 ∷ 21 ∷ 15 ∷ 15 ∷ 15 ∷ 318 ∷ 18 ∷ 40 ∷ 27 ∷ 86 ∷ 21
    ∷ 23 ∷ 22 ∷ 36 ∷ 33 ∷ 28 ∷ 21 ∷ 38 ∷ 40 ∷ 50 ∷ 50 ∷ 94 ∷ 63 ∷ 45 ∷ 39 ∷ 43 ∷ 35 ∷ 34 ∷ 31 ∷ 44
    ∷ 34 ∷ 30 ∷ 29 ∷ 43 ∷ 35 ∷ 41 ∷ 18 ∷ 29 ∷ 69 ∷ 32 ∷ 40 ∷ 59 ∷ 63 ∷ 39 ∷ 32 ∷ 27 ∷ 40 ∷ 20 ∷ 23
    ∷ 41 ∷ 34 ∷ 38 ∷ 32 ∷ 44 ∷ 24 ∷ 40 ∷ 47 ∷ 47 ∷ 31 ∷ 26 ∷ 23 ∷ 24 ∷ 20 ∷ 25 ∷ 20 ∷ 25 ∷ 21 ∷ 16
    ∷ 79 ∷ 18 ∷ 123 ∷ 45 ∷ 83 ∷ 79 ∷ 182 ∷ 130 ∷ 49 ∷ 54 ∷ 115 ∷ 24 ∷ 33 ∷ 86 ∷ 61 ∷ 107 ∷ 106 ∷ 63
    ∷ 20 ∷ 111 ∷ 103 ∷ 151 ∷ 64 ∷ 36 ∷ 32 ∷ 37 ∷ 35 ∷ 20 ∷ 18 ∷ 21 ∷ 22 ∷ 15 ∷ 15 ∷ 29 ∷ 20 ∷ 15
    ∷ 40 ∷ 21 ∷ 28 ∷ 15 ∷ 14 ∷ 17 ∷ 74 ∷ 14 ∷ 67 ∷ 16 ∷ 33 ∷ 14 ∷ 13 ∷ 28 ∷ 15 ∷ 14 ∷ 15 ∷ 16 ∷ 15
    ∷ 13 ∷ 12 ∷ 14 ∷ 13 ∷ 14 ∷ 13 ∷ 15 ∷ 13 ∷ 14 ∷ 13 ∷ 17 ∷ 14 ∷ 13 ∷ 15 ∷ 16 ∷ 13 ∷ 13 ∷ 14 ∷ 15
    ∷ 13 ∷ 14 ∷ 13 ∷ 14 ∷ 13 ∷ 13 ∷ 13 ∷ 15 ∷ 13 ∷ 12 ∷ 13 ∷ 16 ∷ 14 ∷ 18 ∷ 14 ∷ 18 ∷ 14 ∷ 14 ∷ 13
    ∷ 15 ∷ 15 ∷ 14 ∷ 14 ∷ 28 ∷ 19 ∷ 16 ∷ 21 ∷ 22 ∷ 13 ∷ 17 ∷ 23 ∷ 15 ∷ 16 ∷ 13 ∷ 13 ∷ 14 ∷ 13 ∷ 14
    ∷ 13 ∷ 19 ∷ 14 ∷ 16 ∷ 14 ∷ 14 ∷ 13 ∷ 13 ∷ 13 ∷ 17 ∷ 16 ∷ 13 ∷ 14 ∷ 14 ∷ 16 ∷ 14 ∷ 14 ∷ 18 ∷ 14
    ∷ 14 ∷ 14 ∷ 15 ∷ 16 ∷ 13 ∷ 14 ∷ 39 ∷ 21 ∷ 13 ∷ 17 ∷ 20 ∷ 14 ∷ 14 ∷ 15 ∷ 18 ∷ 13 ∷ 13 ∷ 14 ∷ 16
    ∷ 14 ∷ 17 ∷ 16 ∷ 19 ∷ 15 ∷ 16 ∷ 17 ∷ 21 ∷ 20 ∷ 24 ∷ 179 ∷ []

unfoldable pub score : ℕ → ℕ
score c = get_or scoretable c 0

length-scoretable : ◌≡◌ {A = ℕ} (length scoretable) 256
length-scoretable = refl
