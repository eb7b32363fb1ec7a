-- ===== src/ScanBuf.antt =====
-- `scan_buf` of src/magicrescue.c: the ranges to skip, the scanners over a window of the buffer, the
-- recipes at each place found, and the extraction of what matches.
pub mod Ranges
pub mod Extends
pub mod Complete
pub mod Sound
pub mod Frame
pub mod Whole
use magicrescue.Base.{
  ℕ, zero, suc, ◌+◌, ◌-◌, Bool, true, false, ◌&&◌, ◌||◌, Option, none, some, List, [], ◌∷◌, ◌++◌,
  ltb, leb, if◌then◌else◌,
}
use magicrescue.Base.Int.{ℤ, pos, negsuc}
use magicrescue.Memory.{Memory}
use magicrescue.Recipe.{Recipe, ops_match}
use magicrescue.Scanner.{Scanner, run_scan}

-- `struct range`. A negative `begin`, which marks an unused slot, is `none`.
pub record Range : Type 0 where
  pub begin : Option ℕ
  pub end : ℕ

-- The part of the buffer to look at: `scanbuf`, `scanbuf_len` and `scanbuf_filepos`.
pub record Window : Type 0 where
  pub scanbuf : ℕ
  pub len : ℕ
  pub filepos : ℕ

abbrev pub move_past : Window → ℕ → Window
move_past w end = record {
  scanbuf = w.scanbuf + (end - w.filepos);
  len = w.len - (end - w.filepos);
  filepos = end;
}

-- One round of the first loop of `scan_buf`; `none` is its `return 0`.
unfoldable pub skip_one : Range → Window → Option (Range × Window)
skip_one r w = elim r.begin [
  | none ↦ some (r, w)
  | some b ↦
      if ltb r.end w.filepos
      then some (record r { begin = none }, w)
      else if ltb (w.filepos + w.len) r.end
      then none
      else if leb b w.filepos && ltb w.filepos r.end
      then some (r, move_past w r.end)
      else some (r, w)
]

-- The first loop of `scan_buf`: the ranges after it, and the window that is left.
unfoldable pub skip_loop : List Range → Window → List Range × Option Window
skip_loop [] w = ([], some w)
skip_loop (r ∷ rs) w = elim (skip_one r w) [
  | none ↦ (r ∷ rs, none)
  | some (r', w') ↦ let (rs', left) = skip_loop rs w' in (r' ∷ rs', left)
]

-- `filepos > range->begin && filepos < range->end`, in a slot that is used.
abbrev pub strictly_inside : Option ℕ → ℕ → ℕ → Bool
strictly_inside none end filepos = false
strictly_inside (some b) end filepos = ltb b filepos && ltb filepos end

unfoldable pub in_skip_range : List Range → ℕ → Bool
in_skip_range [] filepos = false
in_skip_range (r ∷ rs) filepos = strictly_inside r.begin r.end filepos || in_skip_range rs filepos

-- The last unused slot takes the new range, if there is one.
abbrev pub take_slot : Option ℕ → Range → List Range → Option (List Range)
take_slot none x rs = some (x ∷ rs)
take_slot (some b) x rs = none

unfoldable pub fill_last : List Range → Range → Option (List Range)
fill_last [] x = none
fill_last (r ∷ rs) x = elim (fill_last rs x) [
  | some rs' ↦ some (r ∷ rs')
  | none ↦ take_slot r.begin x rs
]

unfoldable pub add_range : List Range → Range → List Range
unfolding fill_last
add_range rs x = elim (fill_last rs x) [ some rs' ↦ rs' | none ↦ rs ++ x ∷ [] ]

-- What `scan_buf` changes: `skip_ranges`, `filepos_changed`, all else that `extract` works on, and
-- the "Found" messages in their order.
pub record Scan (W : Type 0) : Type 0 where
  pub ranges : List Range
  pub changed : Bool
  pub world : W
  pub found : List (Recipe × ℕ)

-- `r->allow_overlap >= 0 && output_size > r->allow_overlap`: the length to skip, if that holds.
abbrev pub to_skip : ℤ → ℕ → Option ℕ
to_skip (pos a) size = if ltb a size then some (size - a) else none
to_skip (negsuc a) size = none

-- `extract` returns the size of the output, or `none` for -1. The flag beside a state is `return -1`.
module _ {W : Type 0} (extract : Recipe → ℕ → W → Option ℕ × W) where
  -- The message, and the call of `extract`.
  unfoldable pub extract_at : Recipe → ℕ → Scan W → Option ℕ × Scan W
  extract_at r filepos s =
      let (size, world) = extract r filepos s.world in
      (size, record s { changed = true; world = world; found = s.found ++ (r, filepos) ∷ [] })

  -- What follows on the size: fail, take the range and try no more recipes, or go on.
  unfoldable pub after_extract :
      Recipe → ℕ → Option ℕ → Scan W → (Scan W → Scan W × Bool) → Scan W × Bool
  after_extract r filepos none s next = (s, true)
  after_extract r filepos (some size) s next = elim (to_skip r.allow_overlap size) [
    | none ↦ next s
    | some n ↦ (
      record s { ranges = add_range s.ranges (record { begin = some filepos; end = filepos + n }) },
      false,
    )
  ]

  -- The loop over the recipes of a scanner at address `p`, which is `filepos` in the file.
  unfoldable pub try_recipes : Memory → ℕ → ℕ → List Recipe → Scan W → Scan W × Bool
  try_recipes mem p filepos [] s = (s, false)
  try_recipes mem p filepos (r ∷ rs) s = elim (ops_match mem p r.ops) [
    | false ↦ try_recipes mem p filepos rs s
    | true ↦
        let (size, s') = extract_at r filepos s in
        after_extract r filepos size s' (try_recipes mem p filepos rs)
  ]

  -- The body of the `while` at a place found: skip it, or try the recipes.
  unfoldable pub visit : Memory → Scanner → Window → ℕ → Scan W → Scan W × Bool
  visit mem scanner w i s = elim (in_skip_range s.ranges (w.filepos + i)) [
    | true ↦ (s, false)
    | false ↦ try_recipes mem (w.scanbuf + i) (w.filepos + i) scanner.recipes s
  ]

  abbrev pub unless_failed : (Scan W → Scan W × Bool) → Scan W × Bool → Scan W × Bool
  unless_failed next (s, true) = (s, true)
  unless_failed next (s, false) = next s

  -- What the `while` does with the pointer that the scanner returns; `next` is the loop from its
  -- next `p - scanbuf` on.
  unfoldable pub at_hit :
      Memory → Scanner → Window → Scan W → (ℕ → Scan W → Scan W × Bool) → Option ℕ → Scan W × Bool
  at_hit mem scanner w s next none = (s, false)
  at_hit mem scanner w s next (some a) =
      let i = a - scanner.offset - w.scanbuf in
      unless_failed (next (i + (scanner.offset + 1))) (visit mem scanner w i s)

  -- The `while` of one scanner; `q` is `p - scanbuf`. Each round moves `p` forward, so a round for
  -- each byte of the window, and one more, are enough fuel.
  unfoldable pub scan_loop : ℕ → Memory → Scanner → Window → ℕ → Scan W → Scan W × Bool
  unfolding at_hit
  scan_loop zero mem scanner w q s = (s, false)
  scan_loop (suc fuel) mem scanner w q s = elim (ltb q w.len) [
    | false ↦ (s, false)
    | true ↦
        at_hit mem scanner w s (scan_loop fuel mem scanner w)
          (run_scan mem scanner.func (w.scanbuf + q) (w.len - q + scanner.offset) (w.filepos + q))
  ]

  -- The loop over the scanners.
  unfoldable pub scan_all : Memory → List Scanner → Window → Scan W → Scan W × Bool
  unfolding scan_loop
  scan_all mem [] w s = (s, false)
  scan_all mem (scanner ∷ scanners) w s =
      unless_failed (scan_all mem scanners w) (scan_loop (suc w.len) mem scanner w scanner.offset s)

  -- `scan_buf`, with `filepos_changed` in the state: the flag of the pair is its -1.
  unfoldable pub scan_buf : Memory → List Scanner → Window → Scan W → Scan W × Bool
  scan_buf mem scanners w s =
      let (ranges, left) = skip_loop s.ranges w in
      let s' = record s { ranges = ranges; changed = false } in
      elim left [ none ↦ (s', false) | some w' ↦ scan_all mem scanners w' s' ]
