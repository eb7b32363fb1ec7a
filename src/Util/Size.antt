-- ===== src/Util/Size.antt =====
-- `atol_calc` of src/util.c: a size with a suffix.
use magicrescue.Base.{
  ℕ, suc, ◌-◌, ◌*◌, ◌^◌, ◌≡◌, refl, ap, ◌∙◌, true, false, ◌||◌, Option, none, some, List, [], ◌∷◌,
  ltb, ◌==◌, if◌then◌else◌, arith, Bool-cases, inl, inr,
}
use magicrescue.Base.Int.{ℤ, pos, negsuc, scale, fits_long}

abbrev pub last_char : List ℕ → ℕ
last_char [] = 0
last_char (c ∷ []) = c
last_char (c ∷ d ∷ cs) = last_char (d ∷ cs)

-- A product that does not fit into a `long` is undefined in C, and is `none` here.
abbrev pub checked : ℤ → Option ℤ
checked n = if fits_long n then some n else none

-- `result *= 1024;`
abbrev pub times_1024 : Option ℤ → Option ℤ
times_1024 none = none
times_1024 (some n) = checked (scale 1024 n)

-- The `switch`, where a case falls through to those below it.
unfoldable pub apply_suffix : ℕ → ℤ → Option ℤ
apply_suffix c n =
    if c == b'G'
    then times_1024 (times_1024 (times_1024 (some n)))
    else if c == b'M'
    then times_1024 (times_1024 (some n))
    else if c == b'k' || c == b'K'
    then times_1024 (some n)
    else some n

-- `atol` is the one of C.
unfoldable pub atol_calc : (List ℕ → ℤ) → List ℕ → Option ℤ
unfolding apply_suffix
atol_calc atol [] = some (pos 0)
atol_calc atol (c ∷ cs) = apply_suffix (last_char (c ∷ cs)) (atol (c ∷ cs))

abbrev pub unit_of : ℕ → ℕ
unit_of c =
    if c == b'G'
    then 2 ^ 30
    else if c == b'M'
    then 2 ^ 20
    else if c == b'k' || c == b'K'
    then 2 ^ 10
    else 1

times_pos : (m : ℕ) → times_1024 (checked (pos m)) ≡ checked (pos (m * 1024))
times_pos m = elim (Bool-cases (ltb m (2 ^ 63))) [
  | inl e ↦ rw (e) refl
  | inr e ↦ let big : ltb (m * 1024) (2 ^ 63) ≡ false = ground arith in rw (e, big) refl
]

times_negsuc : (m : ℕ) → times_1024 (checked (negsuc m)) ≡ checked (negsuc (suc m * 1024 - 1))
times_negsuc m = elim (Bool-cases (ltb m (2 ^ 63))) [
  | inl e ↦ rw (e) refl
  | inr e ↦ let big : ltb (suc m * 1024 - 1) (2 ^ 63) ≡ false = ground arith in rw (e, big) refl
]

checked_once : (n : ℤ) → times_1024 (some n) ≡ checked (scale (2 ^ 10) n)
checked_once n = refl

checked_twice : (n : ℤ) → times_1024 (times_1024 (some n)) ≡ checked (scale (2 ^ 20) n)
checked_twice (pos n) = times_pos (n * 1024) ∙ ap (λ m. checked (pos m)) (omega arith)
checked_twice (negsuc n) =
    times_negsuc (suc n * 1024 - 1) ∙ ap (λ m. checked (negsuc m)) (omega arith)

checked_thrice :
    (n : ℤ) → times_1024 (times_1024 (times_1024 (some n))) ≡ checked (scale (2 ^ 30) n)
checked_thrice (pos n) =
    ap times_1024 (checked_twice (pos n))
    ∙ times_pos (n * 1048576)
    ∙ ap (λ m. checked (pos m)) (omega arith)
checked_thrice (negsuc n) =
    ap times_1024 (checked_twice (negsuc n))
    ∙ times_negsuc (suc n * 1048576 - 1)
    ∙ ap (λ m. checked (negsuc m)) (omega arith)

checked_unit : (n : ℤ) → fits_long n ≡ true → some n ≡ checked (scale 1 n)
checked_unit (pos n) h = let e : n * 1 ≡ n = omega arith in rw (e, h) refl
checked_unit (negsuc n) h = let e : suc n * 1 - 1 ≡ n = omega arith in rw (e, h) refl

-- A size is the number times the unit that its last character stands for, 1 without one, if that fits
-- into a `long`, and is undefined otherwise. The number of `atol` fits.
pub atol_calc-unit_of :
    (atol : List ℕ → ℤ) (c : ℕ) (cs : List ℕ)
    → fits_long (atol (c ∷ cs)) ≡ true
    → atol_calc atol (c ∷ cs) ≡ checked (scale (unit_of (last_char (c ∷ cs))) (atol (c ∷ cs)))
unfolding atol_calc apply_suffix
atol_calc-unit_of atol c cs h = go (last_char (c ∷ cs)) (atol (c ∷ cs)) h
  where
    go : (x : ℕ) (n : ℤ) → fits_long n ≡ true → apply_suffix x n ≡ checked (scale (unit_of x) n)
    go x n h = elim (Bool-cases (x == b'G')) [
      | inl g ↦ rw (g, apply_suffix) (checked_thrice n)
      | inr g ↦ elim (Bool-cases (x == b'M')) [
        | inl m ↦ rw (g, m, apply_suffix) (checked_twice n)
        | inr m ↦ elim (Bool-cases (x == b'k' || x == b'K')) [
          | inl k ↦ rw (g, m, k, apply_suffix) (checked_once n)
          | inr k ↦ rw (g, m, k, apply_suffix) (checked_unit n h)
        ]
      ]
    ]
