-- ===== src/Tests/Tools.antt =====
-- Runs of `safecat`, of an array, and of the numbers with a suffix or a sign.
use magicrescue.Base.{
  ℕ, zero, suc, ◌+◌, ◌/◌, ◌≤◌, ◌≡◌, refl, ap, Option, some, List, [], ◌∷◌, ◌++◌, length, take,
  arith,
}
use magicrescue.Base.Int.{ℤ, pos, scale}
use magicrescue.Parse.Scanf.{codes}
use magicrescue.Util.Hex.Value.{hex_value}
use magicrescue.Util.Size.{atol_calc, checked, unit_of, atol_calc-unit_of}
use magicrescue.Util.Seek.{minus, target, rich_seek, rich_seek-target}
use magicrescue.Array.{Allocator, Array, array_count, array_add, load}
use magicrescue.Array.Elements.{IsArray, elements_of, Holds, array_add_appends}
use magicrescue.Safecat.{Limits, limit_reached, safecat}
use magicrescue.Safecat.Prefix.{HasCopied, safecat-HasCopied}
use magicrescue.Tests.Concrete.{the_device}
use magicrescue.Tests.Text.{pipe}

abbrev fixed : ℕ → List ℕ → ℤ
fixed n s = pos n

atol_calc_run : atol_calc (fixed 3) (codes "3M") ≡ some (pos 3145728)
unfolding atol_calc
atol_calc_run = refl

atol_calc-unit_of_example :
    atol_calc (fixed 3) (codes "3M") ≡ checked (scale (unit_of b'M') (pos 3))
atol_calc-unit_of_example = atol_calc-unit_of (fixed 3) b'3' (codes "M") refl

rich_seek-target_example :
    rich_seek (fixed 0) (some (codes "-0x1f")) ≡ some (target minus (hex_value (codes "1f")))
rich_seek-target_example = rich_seek-target (fixed 0) minus (codes "1f") (omega arith)

-- New memory is zero.
abbrev blanks : ℕ → List ℕ
blanks zero = []
blanks (suc n) = 0 ∷ blanks n

length-blanks : (n : ℕ) → length (blanks n) ≡ n
length-blanks zero = refl
length-blanks (suc n) = ap suc (length-blanks n)

abbrev regrow : List ℕ → ℕ → List ℕ
regrow [] n = blanks n
regrow (b ∷ bs) zero = []
regrow (b ∷ bs) (suc n) = b ∷ regrow bs n

length-regrow : (bs : List ℕ) (n : ℕ) → length (regrow bs n) ≡ n
length-regrow [] n = length-blanks n
length-regrow (b ∷ bs) zero = refl
length-regrow (b ∷ bs) (suc n) = ap suc (length-regrow bs n)

regrow_keeps : (bs : List ℕ) (n : ℕ) → length bs ≤ n → take (length bs) (regrow bs n) ≡ bs
regrow_keeps [] n h = refl
regrow_keeps (b ∷ bs) zero h = absurd (omega arith)
regrow_keeps (b ∷ bs) (suc n) h = ap (λ t. b ∷ t) (regrow_keeps bs n (omega arith))

alloc : Allocator
alloc = record { realloc = regrow; realloc_size = length-regrow; realloc_keeps = regrow_keeps }

abbrev words : Array
words = record { el_len = 2; elements = 1; block = 7 ∷ 8 ∷ [] }

words-IsArray : IsArray words
words-IsArray = record { sized = omega arith; whole = refl }

array_add_appends_example :
    IsArray (array_add alloc words (some (1 ∷ 2 ∷ []))).0
    × (array_count (array_add alloc words (some (1 ∷ 2 ∷ []))).0 ≡ array_count words + 1)
    × (elements_of (array_add alloc words (some (1 ∷ 2 ∷ []))).0
        ≡ elements_of words
          ++ (load
                (array_add alloc words (some (1 ∷ 2 ∷ []))).0
                (array_add alloc words (some (1 ∷ 2 ∷ []))).1
              ∷ []))
    × Holds (some (1 ∷ 2 ∷ [])) (
        load
          (array_add alloc words (some (1 ∷ 2 ∷ []))).0
          (array_add alloc words (some (1 ∷ 2 ∷ []))).1)
array_add_appends_example = array_add_appends alloc words words-IsArray (some (1 ∷ 2 ∷ [])) refl

-- The command keeps half of what it gets, and may lag behind by 4 bytes.
abbrev half : List ℕ → Option ℕ
half v = some (length v / 2)

abbrev limits : Limits
limits = record { max_diff = pos 4; max_unchanged = pos 100; max_total = pos 100 }

safecat_run : (safecat the_device pipe half limits 0 []).0 ≡ limit_reached
unfolding safecat magicrescue.Memory.Slice.bytes_from
safecat_run = refl

safecat-HasCopied_example :
    HasCopied the_device pipe half limits 0 [] (safecat the_device pipe half limits 0 [])
safecat-HasCopied_example = safecat-HasCopied the_device pipe half limits 0 []
