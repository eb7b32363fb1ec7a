-- ===== src/Util/Seek.antt =====
-- `rich_seek` of src/util.c: where an offset as text points to.
use native.Mathlib.Nat.{pow-le-pow_right}
use magicrescue.Base.{
  ℕ, ◌-◌, ◌*◌, ◌^◌, ◌<◌, ◌≡◌, refl, ap, ◌∙◌, true, false, Option, none, some, List, [], ◌∷◌, ◌++◌,
  leb, ltb, ◌==◌, if◌then◌else◌, length, arith, lt→ltb,
}
use magicrescue.Base.Int.{ℤ, pos, negsuc, negate}
use magicrescue.Util.Hex.{hextoll}
use magicrescue.Util.Hex.Value.{hex_value, hextoll-value, hex_value-lt}

pub data Whence : Type 0 where
  seek_set seek_cur seek_end : Whence

-- The value of a 64-bit pattern.
abbrev pub signed : ℕ → ℤ
signed n = if ltb n (2 ^ 63) then pos n else negsuc (2 ^ 64 - 1 - n)

abbrev pub signed_option : Option ℕ → Option ℤ
signed_option none = none
signed_option (some n) = some (signed n)

-- The number, in hexadecimal after `0x`; `atoll` is the one of C.
unfoldable pub offset_number : (List ℕ → ℤ) → List ℕ → Option ℤ
offset_number atoll [] = some (atoll [])
offset_number atoll (c ∷ []) = some (atoll (c ∷ []))
offset_number atoll (c ∷ d ∷ cs) = elim (c == b'0') [
  | false ↦ some (atoll (c ∷ d ∷ cs))
  | true ↦ elim (d == b'x') [
    | false ↦ some (atoll (c ∷ d ∷ cs))
    | true ↦ signed_option (hextoll cs)
  ]
]

abbrev pub from : Whence → (ℤ → ℤ) → Option ℤ → Option (Whence × ℤ)
from whence sign none = none
from whence sign (some n) = some (whence, sign n)

-- The arguments of the call of `lseek`. `string` may be a null pointer. What is undefined in C is
-- `none`: `strchr` finds the end of an empty string, and the number is read from behind it.
unfoldable pub rich_seek : (List ℕ → ℤ) → Option (List ℕ) → Option (Whence × ℤ)
unfolding offset_number
rich_seek atoll none = some (seek_cur, pos 0)
rich_seek atoll (some []) = none
rich_seek atoll (some (c ∷ cs)) =
    if c == b'='
    then from seek_set (λ n. n) (offset_number atoll cs)
    else if c == b'+'
    then from seek_cur (λ n. n) (offset_number atoll cs)
    else if c == b'-'
    then from seek_end negate (offset_number atoll cs)
    else from seek_set (λ n. n) (offset_number atoll (c ∷ cs))

-- The sign of an offset, and what it asks for.
pub data Sign : Type 0 where
  no_sign equals plus minus : Sign

abbrev pub sign_text : Sign → List ℕ
sign_text no_sign = []
sign_text equals = b'=' ∷ []
sign_text plus = b'+' ∷ []
sign_text minus = b'-' ∷ []

abbrev pub target : Sign → ℕ → Whence × ℤ
target no_sign n = (seek_set, pos n)
target equals n = (seek_set, pos n)
target plus n = (seek_cur, pos n)
target minus n = (seek_end, negate (pos n))

small_hex : (digits : List ℕ) → length digits < 16 → ltb (hex_value digits) (2 ^ 63) ≡ true
small_hex digits h = lt→ltb (hex_value digits) (2 ^ 63) (
    omega (
      arith,
      hex_value-lt digits,
      pow-le-pow_right {n = 2} (omega arith) {i = 4 * length digits} {j = 60} (omega arith),
    ))

offset_number-hex :
    (atoll : List ℕ → ℤ) (digits : List ℕ)
    → length digits < 16
    → offset_number atoll (b'0' ∷ b'x' ∷ digits) ≡ some (pos (hex_value digits))
unfolding offset_number
offset_number-hex atoll digits h =
    let l : leb (length digits) 16 ≡ true = ground arith in
    let v : hextoll digits ≡ some (hex_value digits) = hextoll-value digits ∙ (rw (l) refl) in
    let s : ltb (hex_value digits) (2 ^ 63) ≡ true = small_hex digits h in rw (v, s) refl

-- An offset in hexadecimal, with up to 15 digits and any sign, goes to that number of bytes from the
-- start without a sign or with `=`, from the position with `+`, and before the end with `-`.
pub rich_seek-target :
    (atoll : List ℕ → ℤ) (sign : Sign) (digits : List ℕ)
    → length digits < 16
    → rich_seek atoll (some (sign_text sign ++ b'0' ∷ b'x' ∷ digits))
      ≡ some (target sign (hex_value digits))
unfolding rich_seek
rich_seek-target atoll no_sign digits h =
    ap (from seek_set (λ n. n)) (offset_number-hex atoll digits h)
rich_seek-target atoll equals digits h =
    ap (from seek_set (λ n. n)) (offset_number-hex atoll digits h)
rich_seek-target atoll plus digits h =
    ap (from seek_cur (λ n. n)) (offset_number-hex atoll digits h)
rich_seek-target atoll minus digits h = ap (from seek_end negate) (offset_number-hex atoll digits h)
