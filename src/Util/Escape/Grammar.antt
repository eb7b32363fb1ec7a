-- ===== src/Util/Escape/Grammar.antt =====
-- The grammar of the escape sequences that `string_init` of src/util.c reads, and its buffer.
use mathlib.Core.Path.{subst}
use magicrescue.Base.{
  ℕ, zero, suc, ◌+◌, ◌*◌, ◌/◌, ◌%◌, ◌≤◌, ◌<◌, ◌≡◌, ◌≢◌, refl, List, [], ◌∷◌, ltb, ◌==◌,
  if◌then◌else◌, length, arith, ◌-◌, All, ◌⊎◌, ◌↔◌, Bool-cases, ==_iff, inl, inr,
}
use magicrescue.Util.Hex.{hex2num}
use magicrescue.Util.Escape.{escape_letter, string_init_from, string_init}
use magicrescue.Util.Escape.Letters.{
  Means, Digit, escape_letter-Means, hex_byte-digits, hex_byte-Digit, has_meaning, has_value,
}

-- `Spells src dst`: the characters `src` stand for the bytes `dst`.
pub data Spells : List ℕ → List ℕ → Type 0 where
  done : Spells [] []
  plain : {c : ℕ} {s d : List ℕ} → c ≢ b'\\' → Spells s d → Spells (c ∷ s) (c ∷ d)
  hex :
      {b x h l m n : ℕ} {s d : List ℕ}
      → b ≡ b'\\'
      → x ≡ b'x'
      → Digit h m
      → Digit l n
      → Spells s d
      → Spells (b ∷ x ∷ h ∷ l ∷ s) ((16 * m + n) ∷ d)
  letter :
      {b c n : ℕ} {s d : List ℕ}
      → b ≡ b'\\'
      → c ≢ b'x'
      → Means c n
      → Spells s d
      → Spells (b ∷ c ∷ s) (n ∷ d)
  -- An `x` with fewer than two characters behind it is a letter as any other.
  short_hex :
      {b c n : ℕ} {s d : List ℕ}
      → b ≡ b'\\'
      → length s < 2
      → Means c n
      → Spells s d
      → Spells (b ∷ c ∷ s) (n ∷ d)
  -- A backslash at the end makes a zero byte of the terminator.
  dangling : {b : ℕ} → b ≡ b'\\' → Spells (b ∷ []) (0 ∷ [])

escape_letter-zero : escape_letter 0 ≡ 0
unfolding escape_letter
escape_letter-zero = refl

string_init_from-nil : (fuel : ℕ) → string_init_from fuel [] ≡ []
unfolding string_init_from
string_init_from-nil zero = refl
string_init_from-nil (suc fuel) = refl

string_init_from-Spells :
    (fuel : ℕ) {src dst : List ℕ}
    → Spells src dst
    → length src ≤ fuel
    → string_init_from fuel src ≡ dst
unfolding string_init_from
string_init_from-Spells zero done h = refl
string_init_from-Spells (suc fuel) done h = refl
string_init_from-Spells zero (plain n s) h = absurd (omega arith)
string_init_from-Spells (suc fuel) (plain n s) h = ground (arith, string_init_from-Spells fuel s)
string_init_from-Spells zero (hex b x u v s) h = absurd (omega arith)
string_init_from-Spells (suc fuel) (hex b x u v s) h =
    ground (arith, string_init_from-Spells fuel s, hex_byte-Digit u v)
string_init_from-Spells zero (letter b c m s) h = absurd (omega arith)
string_init_from-Spells (suc fuel) (letter b c m s) h =
    ground (arith, string_init_from-Spells fuel s, escape_letter-Means m)
string_init_from-Spells zero (short_hex b l m s) h = absurd (omega arith)
string_init_from-Spells (suc fuel) (short_hex b l m s) h =
    ground (arith, string_init_from-Spells fuel s, escape_letter-Means m)
string_init_from-Spells zero (dangling b) h = absurd (omega arith)
string_init_from-Spells (suc fuel) (dangling b) h =
    ground (arith, string_init_from-nil fuel, escape_letter-zero)

-- The case of a backslash, with the claim for all that is left as hypothesis.
module _ (fuel : ℕ) (ih : (s : List ℕ) → length s ≤ fuel → Spells s (string_init_from fuel s)) where
  letter_sound :
      (b c : ℕ) (s : List ℕ)
      → b ≡ b'\\'
      → length s < fuel
      → (c ≢ b'x') ⊎ (length s < 2)
      → Spells (b ∷ c ∷ s) (string_init_from (suc fuel) (b ∷ c ∷ s))
  unfolding string_init_from
  letter_sound b c s e h (inl n) =
      subst (Spells (b ∷ c ∷ s)) (ground arith) (letter e n (has_meaning c) (ih s (omega arith)))
  letter_sound b c s e h (inr n) =
      subst (Spells (b ∷ c ∷ s)) (ground arith) (short_hex e n (has_meaning c) (ih s (omega arith)))

  escaped_sound :
      (b : ℕ) (s : List ℕ)
      → b ≡ b'\\'
      → length s ≤ fuel
      → Spells (b ∷ s) (string_init_from (suc fuel) (b ∷ s))
  unfolding string_init_from
  escaped_sound b [] e h =
      subst (Spells (b ∷ [])) (ground (arith, string_init_from-nil fuel, escape_letter-zero))
        (dangling e)
  escaped_sound b (c ∷ []) e h = letter_sound b c [] e (omega arith) (inr (omega arith))
  escaped_sound b (c ∷ y ∷ []) e h = letter_sound b c (y ∷ []) e (omega arith) (inr (omega arith))
  escaped_sound b (c ∷ y ∷ z ∷ s) e h = elim (Bool-cases (c == b'x')) [
    | inl x ↦
        subst (Spells (b ∷ c ∷ y ∷ z ∷ s)) (ground (arith, hex_byte-digits y z))
          (hex e ((==_iff _ _).0 x) (has_value y) (has_value z) (ih s (omega arith)))
    | inr n ↦ letter_sound b c (y ∷ z ∷ s) e (omega arith) (inl (ground arith))
  ]

string_init_from_sound :
    (fuel : ℕ) (src : List ℕ) → length src ≤ fuel → Spells src (string_init_from fuel src)
unfolding string_init_from
string_init_from_sound zero [] h = done
string_init_from_sound (suc fuel) [] h = done
string_init_from_sound zero (c ∷ src) h = absurd (omega arith)
string_init_from_sound (suc fuel) (c ∷ src) h = elim (Bool-cases (c == b'\\')) [
  | inr e ↦
      subst (Spells (c ∷ src)) (ground arith)
        (plain {c = c} (ground arith) (string_init_from_sound fuel src (omega arith)))
  | inl e ↦ escaped_sound fuel (string_init_from_sound fuel) c src ((==_iff _ _).0 e) (omega arith)
]

-- `string_init` decides the grammar of the escape sequences: it returns `dst` exactly when the
-- characters `src` spell the bytes `dst`, whatever the characters are.
pub string_init-Spells : (src dst : List ℕ) → (string_init src ≡ dst) ↔ Spells src dst
unfolding string_init
string_init-Spells src dst = (
  λ e. subst (Spells src) e (string_init_from_sound (length src) src (omega arith)),
  λ s. string_init_from-Spells (length src) s (omega arith),
)

Spells-length : {src dst : List ℕ} → Spells src dst → length dst ≤ length src
Spells-length done = omega arith
Spells-length (plain n s) = omega (arith, Spells-length s)
Spells-length (hex b x u v s) = omega (arith, Spells-length s)
Spells-length (letter b c m s) = omega (arith, Spells-length s)
Spells-length (short_hex b l m s) = omega (arith, Spells-length s)
Spells-length (dangling b) = omega arith

-- `dst->s = malloc(slen)` is large enough: no more bytes are written than `src` has characters.
pub length-string_init : (src : List ℕ) → length (string_init src) ≤ length src
length-string_init src = Spells-length ((string_init-Spells src (string_init src)).0 refl)

-- The digit that `hex2num` reads as `n`, for `n` below 16.
abbrev pub hex_digit : ℕ → ℕ
hex_digit n = if ltb n 10 then n + b'0' else n - 10 + b'a'

hex2num-hex_digit : (n : ℕ) → n < 16 → hex2num (hex_digit n) ≡ n
unfolding hex2num
hex2num-hex_digit n h = ground arith

-- A byte string with every byte written as `\xHH`.
abbrev pub escape_all : List ℕ → List ℕ
escape_all [] = []
escape_all (c ∷ cs) = b'\\' ∷ b'x' ∷ hex_digit (c / 16) ∷ hex_digit (c % 16) ∷ escape_all cs

escape_all-Spells : (bs : List ℕ) → All (λ c. c < 256) bs → Spells (escape_all bs) bs
escape_all-Spells [] h = done
escape_all-Spells (c ∷ cs) h =
    let e : 16 * hex2num (hex_digit (c / 16)) + hex2num (hex_digit (c % 16)) ≡ c =
      rw (hex2num-hex_digit (c / 16) (omega arith), hex2num-hex_digit (c % 16) (omega arith))
        (omega arith) in
    subst (λ (x : ℕ). Spells (escape_all (c ∷ cs)) (x ∷ cs)) e
      (hex refl refl (has_value (hex_digit (c / 16))) (has_value (hex_digit (c % 16)))
        (escape_all-Spells cs h.1))

-- Every byte string can be written in a recipe: with each byte as `\xHH`, `string_init` reads it
-- back.
pub string_init-escape_all :
    (bs : List ℕ) → All (λ c. c < 256) bs → string_init (escape_all bs) ≡ bs
string_init-escape_all bs h = (string_init-Spells (escape_all bs) bs).1 (escape_all-Spells bs h)
