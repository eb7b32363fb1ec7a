-- ===== src/Util/Hex/Value.antt =====
-- The number that `hextoll` of src/util.c reads.
use native.Mathlib.Nat.{pow-le-pow_right, mod-eq_of_lt, pow-suc}
use magicrescue.Base.{
  ℕ, suc, ◌+◌, ◌-◌, ◌*◌, ◌%◌, ◌^◌, ◌≤◌, ◌<◌, bit_or, ◌≡◌, refl, ap, ◌∙◌, none, some, List, [], ◌∷◌,
  leb, if◌then◌else◌, length, arith, lt→ltb, leb→le, Bool-cases, inl, inr,
}
use magicrescue.Base.Bits.{bit_or_fields}
use magicrescue.Util.Hex.{hex2num, hextoll_from, hextoll}

pub hex2num-lt : (c : ℕ) → hex2num c < 16
unfolding hex2num
hex2num-lt c = ground arith

-- The numeral in base 16, most significant digit first.
abbrev pub hex_value : List ℕ → ℕ
hex_value [] = 0
hex_value (c ∷ cs) = hex2num c * 2 ^ (4 * length cs) + hex_value cs

pow-nibble : (n : ℕ) → 2 ^ (4 * suc n) ≡ 16 * 2 ^ (4 * n)
pow-nibble n =
    let e : 4 * suc n ≡ suc (suc (suc (suc (4 * n)))) = omega arith in
    rw e (
      omega (
        arith,
        pow-suc 2 (suc (suc (suc (4 * n)))),
        pow-suc 2 (suc (suc (4 * n))),
        pow-suc 2 (suc (4 * n)),
        pow-suc 2 (4 * n),
      ))

nibble-lt : (d n : ℕ) → d < 16 → d * 2 ^ (4 * n) < 2 ^ (4 * suc n)
nibble-lt d n h =
    rw (pow-nibble n)
      (grind (arith, pow-le-pow_right {n = 2} (omega arith) {i = 0} {j = 4 * n} (omega arith)))

pub hex_value-lt : (cs : List ℕ) → hex_value cs < 2 ^ (4 * length cs)
hex_value-lt [] = omega arith
hex_value-lt (c ∷ cs) = omega (
  arith,
  pow-nibble (length cs),
  hex_value-lt cs,
  at_most (hex2num c) (2 ^ (4 * length cs)) (hex2num-lt c),
)
  where
    at_most : (d p : ℕ) → d < 16 → d * p ≤ 15 * p
    at_most d p h = grind arith

bit_or_nibble :
    (n q d : ℕ)
    → n ≤ 15
    → d < 16
    → bit_or (q * 2 ^ (4 * suc n)) (d * 2 ^ (4 * n) % 2 ^ 64) ≡ (q * 16 + d) * 2 ^ (4 * n)
bit_or_nibble n q d h hd =
    let small : 2 ^ (4 * suc n) ≤ 2 ^ 64 =
      pow-le-pow_right {n = 2} (omega arith) {i = 4 * suc n} {j = 64} (omega arith) in
    rw (mod-eq_of_lt {n = d * 2 ^ (4 * n)} {m = 2 ^ 64} (omega (arith, nibble-lt d n hd))) (
      bit_or_fields (4 * suc n) q (d * 2 ^ (4 * n)) (nibble-lt d n hd)
      ∙ omega (arith, ap (λ (t : ℕ). q * t) (pow-nibble n)))

hextoll_from-value :
    (len i q : ℕ) (cs : List ℕ)
    → i + length cs ≡ len
    → length cs ≤ 16
    → hextoll_from len i cs (q * 2 ^ (4 * length cs))
      ≡ some (q * 2 ^ (4 * length cs) + hex_value cs)
unfolding hextoll_from
hextoll_from-value len i q [] e h = ap some (omega arith)
hextoll_from-value len i q (c ∷ cs) e h =
    let shift : len - 1 - i ≡ length cs = omega arith in
    rw
      (
        shift,
        lt→ltb (4 * length cs) 64 (omega arith),
        bit_or_nibble (length cs) q (hex2num c) (omega arith) (hex2num-lt c),
      )
      (hextoll_from-value len (i + 1) (q * 16 + hex2num c) cs (omega arith) (omega arith)
        ∙ ap some (omega (arith, ap (λ (t : ℕ). q * t) (pow-nibble (length cs)))))

too_long : (str : List ℕ) → 16 < length str → hextoll str ≡ none
unfolding hextoll hextoll_from
too_long [] h = absurd (omega arith)
too_long (c ∷ cs) h = ground arith

-- `hextoll` returns the number that the digits write in base 16, every character counted as a
-- digit by `hex2num`, if there are at most 16 of them; with more, its first shift is undefined.
pub hextoll-value :
    (str : List ℕ) → hextoll str ≡ (if leb (length str) 16 then some (hex_value str) else none)
unfolding hextoll
hextoll-value [] = refl
hextoll-value (c ∷ cs) = elim (Bool-cases (leb (suc (length cs)) 16)) [
  | inl fits ↦ rw fits (
      ap (λ (t : ℕ). hextoll_from (suc (length cs)) 0 (c ∷ cs) t) (omega arith)
      ∙ hextoll_from-value (suc (length cs)) 0 0 (c ∷ cs) (omega arith) (leb→le _ _ fits)
      ∙ ap some (omega arith))
  | inr long ↦ rw long (too_long (c ∷ cs) (ground arith))
]
