-- ===== src/Memory.antt =====
-- The memory that a scan reads: an address is a number, and every address holds a byte. What an
-- operation reads is a theorem of its own, not a fault of the model.
pub mod First
pub mod Slice
use magicrescue.Base.{
  ℕ, zero, suc, ◌+◌, ◌≡◌, ◌≤◌, ◌<◌, Bool, true, ◌&&◌, Option, none, some, List, [], ◌∷◌, ◌==◌,
  if◌then◌else◌,
}

abbrev pub Memory : Type 0
Memory = ℕ → ℕ

-- `memchr (mem + p, c, n)`: the first address that holds `c`.
unfoldable pub memchr : Memory → ℕ → ℕ → ℕ → Option ℕ
memchr mem p c zero = none
memchr mem p c (suc n) = let rest = memchr mem (p + 1) c n in if mem p == c then some p else rest

-- `memcmp (mem + p, s, length s) == 0`.
unfoldable pub holds : Memory → ℕ → List ℕ → Bool
holds mem p [] = true
holds mem p (x ∷ xs) = mem p == x && holds mem (p + 1) xs

-- Two memories with the same bytes from `lo` up to `hi`.
abbrev pub Agree : Memory → Memory → ℕ → ℕ → Type 0
Agree m m' lo hi = (i : ℕ) → lo ≤ i → i < hi → m i ≡ m' i
