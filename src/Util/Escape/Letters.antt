-- ===== src/Util/Escape/Letters.antt =====
-- What a letter and a digit behind a backslash stand for, in `string_init` of src/util.c.
use mathlib.Core.Path.{subst}
use magicrescue.Base.{ℕ, ◌+◌, ◌*◌, ◌<◌, ◌≡◌, ◌≢◌, ltb, ◌==◌, arith, ◌-◌, Bool-cases, inl, inr}
use magicrescue.Base.Bits.{bit_or_fields}
use magicrescue.Util.Hex.{hex2num}
use magicrescue.Util.Hex.Value.{hex2num-lt}
use magicrescue.Util.Escape.{escape_letter, hex_byte}

-- `Means c n`: the byte `n` is what a letter `c` behind a backslash stands for in C.
pub data Means : ℕ → ℕ → Type 0 where
  alert : {c : ℕ} → c ≡ b'a' → Means c 7
  backspace : {c : ℕ} → c ≡ b'b' → Means c 8
  tab : {c : ℕ} → c ≡ b't' → Means c 9
  newline : {c : ℕ} → c ≡ b'n' → Means c 10
  vertical_tab : {c : ℕ} → c ≡ b'v' → Means c 11
  form_feed : {c : ℕ} → c ≡ b'f' → Means c 12
  carriage_return : {c : ℕ} → c ≡ b'r' → Means c 13
  itself :
      {c : ℕ}
      → c ≢ b'a'
      → c ≢ b'b'
      → c ≢ b't'
      → c ≢ b'n'
      → c ≢ b'v'
      → c ≢ b'f'
      → c ≢ b'r'
      → Means c c

-- `Digit c n`: the digit `c` has the value `n` in base 16, and any other character counts as 0.
pub data Digit : ℕ → ℕ → Type 0 where
  decimal : {c n : ℕ} → n < 10 → c ≡ b'0' + n → Digit c n
  lower : {c n : ℕ} → n < 6 → c ≡ b'a' + n → Digit c (10 + n)
  upper : {c n : ℕ} → n < 6 → c ≡ b'A' + n → Digit c (10 + n)
  in_front : {c : ℕ} → c < b'0' → Digit c 0
  in_between : {c : ℕ} → b'9' < c → c < b'A' → Digit c 0
  in_between_cases : {c : ℕ} → b'F' < c → c < b'a' → Digit c 0
  behind : {c : ℕ} → b'f' < c → Digit c 0

pub escape_letter-Means : {c n : ℕ} → Means c n → escape_letter c ≡ n
unfolding escape_letter
escape_letter-Means (alert e) = ground arith
escape_letter-Means (backspace e) = ground arith
escape_letter-Means (tab e) = ground arith
escape_letter-Means (newline e) = ground arith
escape_letter-Means (vertical_tab e) = ground arith
escape_letter-Means (form_feed e) = ground arith
escape_letter-Means (carriage_return e) = ground arith
escape_letter-Means (itself a b t n v f r) = ground arith

hex2num-Digit : {c n : ℕ} → Digit c n → hex2num c ≡ n
unfolding hex2num
hex2num-Digit (decimal h e) = ground arith
hex2num-Digit (lower h e) = ground arith
hex2num-Digit (upper h e) = ground arith
hex2num-Digit (in_front h) = ground arith
hex2num-Digit (in_between h k) = ground arith
hex2num-Digit (in_between_cases h k) = ground arith
hex2num-Digit (behind h) = ground arith

pub hex_byte-digits : (h l : ℕ) → hex_byte h l ≡ hex2num h * 16 + hex2num l
unfolding hex_byte
hex_byte-digits h l =
    rw (bit_or_fields 4 (hex2num h) (hex2num l) (hex2num-lt l))
      (omega (arith, hex2num-lt h, hex2num-lt l))

pub hex_byte-Digit : {h l m n : ℕ} → Digit h m → Digit l n → hex_byte h l ≡ 16 * m + n
hex_byte-Digit {h} {l} a b = omega (arith, hex_byte-digits h l, hex2num-Digit a, hex2num-Digit b)

-- Every character has a meaning, and every character counts as a digit.
pub has_meaning : (c : ℕ) → Means c (escape_letter c)
unfolding escape_letter
has_meaning c = elim (Bool-cases (c == b'a')) [
  | inl e ↦ subst (Means c) (ground arith) (alert {c = c} (ground arith))
  | inr a ↦ elim (Bool-cases (c == b'b')) [
    | inl e ↦ subst (Means c) (ground arith) (backspace {c = c} (ground arith))
    | inr b ↦ elim (Bool-cases (c == b't')) [
      | inl e ↦ subst (Means c) (ground arith) (tab {c = c} (ground arith))
      | inr t ↦ elim (Bool-cases (c == b'n')) [
        | inl e ↦ subst (Means c) (ground arith) (newline {c = c} (ground arith))
        | inr n ↦ elim (Bool-cases (c == b'v')) [
          | inl e ↦ subst (Means c) (ground arith) (vertical_tab {c = c} (ground arith))
          | inr v ↦ elim (Bool-cases (c == b'f')) [
            | inl e ↦ subst (Means c) (ground arith) (form_feed {c = c} (ground arith))
            | inr f ↦ elim (Bool-cases (c == b'r')) [
              | inl e ↦ subst (Means c) (ground arith) (carriage_return {c = c} (ground arith))
              | inr r ↦ subst (Means c) (ground arith) (
                  itself {c = c} (ground arith) (ground arith) (ground arith) (ground arith)
                    (ground arith) (ground arith) (ground arith))
            ]
          ]
        ]
      ]
    ]
  ]
]

pub has_value : (c : ℕ) → Digit c (hex2num c)
unfolding hex2num
has_value c = elim (Bool-cases (ltb c b'0')) [
  | inl h ↦ subst (Digit c) (ground arith) (in_front {c = c} (ground arith))
  | inr a ↦ elim (Bool-cases (ltb c 58)) [
    | inl h ↦
        subst (Digit c) (ground arith)
          (decimal {c = c} {n = c - b'0'} (ground arith) (ground arith))
    | inr b ↦ elim (Bool-cases (ltb c b'A')) [
      | inl h ↦ subst (Digit c) (ground arith) (in_between {c = c} (ground arith) (ground arith))
      | inr d ↦ elim (Bool-cases (ltb c 71)) [
        | inl h ↦
            subst (Digit c) (ground arith)
              (upper {c = c} {n = c - b'A'} (ground arith) (ground arith))
        | inr e ↦ elim (Bool-cases (ltb c b'a')) [
          | inl h ↦
              subst (Digit c) (ground arith)
                (in_between_cases {c = c} (ground arith) (ground arith))
          | inr f ↦ elim (Bool-cases (ltb c 103)) [
            | inl h ↦
                subst (Digit c) (ground arith)
                  (lower {c = c} {n = c - b'a'} (ground arith) (ground arith))
            | inr g ↦ subst (Digit c) (ground arith) (behind {c = c} (ground arith))
          ]
        ]
      ]
    ]
  ]
]
