-- ===== src/Scanner/Magic.antt =====
-- The magic character of src/scanner.c, and the contract of the scanner functions.
use mathlib.Core.Path.{subst}
use magicrescue.Base.{
  ℕ, zero, suc, ◌+◌, ◌-◌, ◌^◌, ◌≤◌, ◌<◌, ◌≡◌, ◌⊎◌, refl, ap, Bool, true, false, ◌||◌, some, List,
  [], ◌∷◌, ltb, ◌==◌, length, get_elem?, get_or, arith, Bool-cases, ltb→lt, inl, inr, All,
}
use magicrescue.Base.Table.{all_below, all_below-at}
use magicrescue.Memory.{Memory, holds}
use magicrescue.Memory.First.{First, memchr-First}
use magicrescue.Scanner.{
  ScanFunc, unset, scan_char, scan_block, scan_string, string_init_loop, scanner_string_init,
  run_scan,
}
use magicrescue.Scanner.Score.{scoretable, score}
use magicrescue.Scanner.Search.{scanner_string-First, scanner_block-First, aligned}

score_table : all_below 256 (λ c. c == 0 || ltb (score c) (score 0)) ≡ true
unfolding all_below score
score_table = refl

get_or-beyond : (xs : List ℕ) (i d : ℕ) → length xs ≤ i → get_or xs i d ≡ d
get_or-beyond [] i d h = refl
get_or-beyond (x ∷ xs) zero d h = absurd (omega arith)
get_or-beyond (x ∷ xs) (suc i) d h = get_or-beyond xs i d (omega arith)

score-beyond : (c : ℕ) → 256 ≤ c → score c ≡ 0
unfolding score
score-beyond c h = get_or-beyond scoretable c 0 h

score-zero : score 0 ≡ 1747
unfolding score
score-zero = refl

-- Every other byte has a lower score than the zero byte.
zero_worst : (c : ℕ) → score 0 ≤ score c → c ≡ 0
zero_worst c le = elim (Bool-cases (ltb c 256)) [
  | inl byte ↦ ground (
    arith,
    all_below-at 256 (λ c. c == 0 || ltb (score c) (score 0)) c score_table (ltb→lt _ _ byte),
  )
  | inr beyond ↦ absurd (omega (arith, score-beyond c (ground arith), score-zero))
]

-- What the loop knows of its result `r`, started at index `i` with the winner `w` and its offset.
abbrev Best : List ℕ → ℕ → ℕ → ℕ → ℕ × ℕ → Type 0
Best s i w off r =
    (score r.0 ≤ score w)
    × All (λ c. score r.0 ≤ score c) s
    × ((r ≡ (w, off)) ⊎ ((i ≤ r.1) × (get_elem? s (r.1 - i) ≡ some r.0)))

get_elem?-later :
    (c x : ℕ) (s : List ℕ) (i k : ℕ)
    → i + 1 ≤ k
    → get_elem? s (k - (i + 1)) ≡ some x
    → get_elem? (c ∷ s) (k - i) ≡ some x
get_elem?-later c x s i k h e = let z : k - i ≡ suc (k - (i + 1)) = omega arith in rw z e

Best-better :
    (c : ℕ) (s : List ℕ) (i w off : ℕ) (r : ℕ × ℕ)
    → score c < score w
    → Best s (i + 1) c i r
    → Best (c ∷ s) i w off r
Best-better c s i w off r h (le, rest, inl e) =
    (omega arith, (le, rest), inr (ground arith, at_zero))
  where
    at_zero : get_elem? (c ∷ s) (r.1 - i) ≡ some r.0
    at_zero = let z : r.1 - i ≡ 0 = ground arith in rw z (ground arith)
Best-better c s i w off r h (le, rest, inr (a, b)) =
    (omega arith, (le, rest), inr (omega arith, get_elem?-later c r.0 s i r.1 a b))

Best-same :
    (c : ℕ) (s : List ℕ) (i w off : ℕ) (r : ℕ × ℕ)
    → score w ≤ score c
    → Best s (i + 1) w off r
    → Best (c ∷ s) i w off r
Best-same c s i w off r h (le, rest, inl e) = (le, (omega arith, rest), inl e)
Best-same c s i w off r h (le, rest, inr (a, b)) =
    (le, (omega arith, rest), inr (omega arith, get_elem?-later c r.0 s i r.1 a b))

string_init_loop-Best : (s : List ℕ) (i w off : ℕ) → Best s i w off (string_init_loop s i w off)
unfolding string_init_loop
string_init_loop-Best [] i w off = (omega arith, tt, inl refl)
string_init_loop-Best (c ∷ s) i w off = elim (Bool-cases (ltb (score c) (score w))) [
  | inl better ↦ subst (Best (c ∷ s) i w off) (rw (better, string_init_loop)) (
      Best-better c s i w off (string_init_loop s (i + 1) c i) (ltb→lt _ _ better)
        (string_init_loop-Best s (i + 1) c i))
  | inr same ↦ subst (Best (c ∷ s) i w off) (rw (same, string_init_loop)) (
      Best-same c s i w off (string_init_loop s (i + 1) w off) (ground arith)
        (string_init_loop-Best s (i + 1) w off))
]

-- For a string that is not empty: the magic character stands in it at the magic offset,
-- and no byte of it has a lower score.
abbrev pub IsMagic : List ℕ → ℕ → ℕ → Type 0
IsMagic s c off = (get_elem? s off ≡ some c) × All (λ x. score c ≤ score x) s

IsMagic-Best : (x : ℕ) (s : List ℕ) (r : ℕ × ℕ) → Best (x ∷ s) 0 0 0 r → IsMagic (x ∷ s) r.0 r.1
IsMagic-Best x s r (le, rest, inr (a, b)) = (let z : r.1 - 0 ≡ r.1 = omega arith in rw z at b, rest)
IsMagic-Best x s r (le, rest, inl e) =
    let zero : x ≡ 0 = zero_worst x (ground arith) in (rw e (ap some zero), rest)

-- The function that a scanner must have before it is run.
abbrev pub IsReady : ScanFunc → Type 0
IsReady unset = ⊥
IsReady (scan_char c) = Unit
IsReady (scan_block b) = (k : ℕ) × (b ≡ 2 ^ k)
IsReady (scan_string s c off) = get_elem? s off ≡ some c

-- `scanner_string_init` chooses a character of the string with the least score, and where it
-- stands, for every string that is not empty.
pub scanner_string_init-IsMagic :
    (x : ℕ) (s : List ℕ)
    → (c : ℕ) × (off : ℕ) × (scanner_string_init (x ∷ s) ≡ scan_string (x ∷ s) c off)
      × IsMagic (x ∷ s) c off
unfolding scanner_string_init
scanner_string_init-IsMagic x s =
    let r = string_init_loop (x ∷ s) 0 0 0 in
    (r.0, r.1, refl, IsMagic-Best x s r (string_init_loop-Best (x ∷ s) 0 0 0))

-- What the scanner looks for at place `i` of the file; the buffer `scanbuf` is at `offset`.
abbrev pub wants : Memory → ScanFunc → ℕ → ℕ → ℕ → Bool
wants mem unset scanbuf offset i = false
wants mem (scan_char c) scanbuf offset i = mem i == c
wants mem (scan_block b) scanbuf offset i = aligned b scanbuf offset i
wants mem (scan_string s c off) scanbuf offset i = holds mem i s

-- Every scanner function that is ready returns the first place of a buffer, if that is not empty,
-- at which it finds what it looks for, and a null pointer only if there is no such place.
pub run_scan-First :
    (mem : Memory) (f : ScanFunc) (scanbuf len offset : ℕ)
    → IsReady f
    → 0 < len
    → First (wants mem f scanbuf offset) scanbuf (scanbuf + len) (run_scan mem f scanbuf len offset)
unfolding run_scan
run_scan-First mem unset scanbuf len offset r h = absurd r
run_scan-First mem (scan_char c) scanbuf len offset r h = memchr-First mem scanbuf c len
run_scan-First mem (scan_block b) scanbuf len offset (k, e) h =
    rw e (scanner_block-First k scanbuf len offset h)
run_scan-First mem (scan_string s c off) scanbuf len offset r h =
    scanner_string-First mem s c off r scanbuf len
