-- ===== src/Parse/Rounding.antt =====
-- The rounding of the overlap at the end of `parse_recipe` in src/magicrescue.c.
use magicrescue.Base.{ℕ, ◌+◌, ◌-◌, ◌*◌, ◌/◌, ◌%◌, ◌^◌, ◌≤◌, ◌<◌, bit_and, ◌≡◌, arith}
use magicrescue.Base.Bits.{bit_and_low, bit_and_ones}
use magicrescue.Parse.{round_overlap}

bit_and_high : (x : ℕ) → x < 2 ^ 64 → bit_and x (2 ^ 64 - 8) ≡ x / 8 * 8
bit_and_high x h = omega (
  arith,
  bit_and_low x (2 ^ 64 - 8),
  bit_and_low (x / 2) (2 ^ 63 - 4),
  bit_and_low (x / 2 / 2) (2 ^ 62 - 2),
  bit_and_ones 61 (x / 2 / 2 / 2),
)

-- Rounding gives the least multiple of 8 that is not below the overlap, if no addition wraps.
pub round_overlap_bounds :
    (x : ℕ)
    → x + 7 < 2 ^ 64
    → (x ≤ round_overlap x) × (round_overlap x < x + 8) × (round_overlap x % 8 ≡ 0)
unfolding round_overlap
round_overlap_bounds x h = omega (arith, bit_and_high (x + 7) h)
