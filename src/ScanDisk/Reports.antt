-- ===== src/ScanDisk/Reports.antt =====
-- The reports of `scan_disk` in src/magicrescue.c: a window of the buffer against the file.
use mathlib.Core.Path.{subst}
use native.Mathlib.Nat.{add_assoc}
use magicrescue.Base.{
  ℕ, ◌+◌, ◌-◌, ◌≤◌, ◌<◌, ◌≡◌, refl, sym, ◌∙◌, true, List, [], ◌∷◌, length, arith, Any, All,
}
use magicrescue.Memory.{Memory, holds}
use magicrescue.Recipe.{
  Recipe, Operation, OpFunc, op_string, op_int32, run_op, run_op_int32, ops_match,
}
use magicrescue.Recipe.Word.{op_len}
use magicrescue.Scanner.{Scanner, ScanFunc, unset, scan_char, scan_block, scan_string}
use magicrescue.Scanner.Magic.{wants}
use magicrescue.ScanBuf.Sound.{Matches}

-- How many bytes from the place that it looks at a scanner may read.
abbrev pub scan_len : ScanFunc → ℕ
scan_len unset = 0
scan_len (scan_char c) = 1
scan_len (scan_block b) = 0
scan_len (scan_string s c off) = length s

-- No recipe of the scanner, nor the scanner itself, looks at more than `overlap` bytes.
pub record Fits (overlap : ℕ) (sc : Scanner) : Type 0 where
  pub scan_fits : sc.offset + scan_len sc.func ≤ overlap
  pub ops_fit :
      (r : Recipe)
      → Any (λ q. q ≡ r) sc.recipes
      → All (λ (op : Operation). op.offset + op_len op.func ≤ overlap) r.ops

-- The bytes of `mem` from `p` below `hi` are those of `file` from `at + p` on.
abbrev pub Shows : Memory → Memory → ℕ → ℕ → ℕ → Type 0
Shows mem file at p hi = (i : ℕ) → p ≤ i → i < hi → mem i ≡ file (at + i)

holds-Shows :
    (mem file : Memory) (at p : ℕ) (s : List ℕ)
    → Shows mem file at p (p + length s)
    → holds mem p s ≡ holds file (at + p) s
unfolding holds
holds-Shows mem file at p [] h = refl
holds-Shows mem file at p (x ∷ s) h =
    let e : at + p + 1 ≡ at + (p + 1) = omega arith in
    rw (
      h p (omega arith) (omega arith),
      e,
      holds-Shows mem file at (p + 1) s (λ i lo hi. h i (omega arith) (omega arith)),
    )

run_op_int32-Shows :
    (mem file : Memory) (at p val mask : ℕ)
    → Shows mem file at p (p + 4)
    → run_op_int32 mem p val mask ≡ run_op_int32 file (at + p) val mask
unfolding run_op_int32
run_op_int32-Shows mem file at p val mask h = rw (
  h p (omega arith) (omega arith),
  h (p + 1) (omega arith) (omega arith),
  h (p + 2) (omega arith) (omega arith),
  h (p + 3) (omega arith) (omega arith),
  add_assoc at p 1,
  add_assoc at p 2,
  add_assoc at p 3,
)

run_func-Shows :
    (mem file : Memory) (at p offset : ℕ) (f : OpFunc)
    → Shows mem file at p (p + (offset + op_len f))
    → run_op mem p (record { func = f; offset = offset })
      ≡ run_op file (at + p) (record { func = f; offset = offset })
unfolding run_op
run_func-Shows mem file at p offset (op_string s) h =
    rw (add_assoc at p offset)
      (holds-Shows mem file at (p + offset) s (λ i lo hi. h i (omega arith) (omega arith)))
run_func-Shows mem file at p offset (op_int32 val mask) h = rw (add_assoc at p offset) (
    run_op_int32-Shows mem file at (p + offset) val mask
      (λ i lo hi. h i (omega arith) (omega arith)))

ops_match-Shows :
    (mem file : Memory) (at p n : ℕ) (ops : List Operation)
    → All (λ (op : Operation). op.offset + op_len op.func ≤ n) ops
    → Shows mem file at p (p + n)
    → ops_match mem p ops ≡ ops_match file (at + p) ops
unfolding ops_match
ops_match-Shows mem file at p n [] fit h = refl
ops_match-Shows mem file at p n (op ∷ ops) fit h = rw (
  run_func-Shows mem file at p op.offset op.func (λ i lo hi. h i lo (omega arith)),
  ops_match-Shows mem file at p n ops fit.1 h,
)

wants-Shows :
    (mem file : Memory) (at p : ℕ) (f : ScanFunc)
    → Shows mem file at p (p + scan_len f)
    → wants mem f 0 at p ≡ wants file f 0 0 (at + p)
wants-Shows mem file at p unset h = refl
wants-Shows mem file at p (scan_char c) h = rw (h p (omega arith) (omega arith))
wants-Shows mem file at p (scan_block b) h =
    let e : at + (p - 0) ≡ 0 + (at + p - 0) = omega arith in rw e
wants-Shows mem file at p (scan_string s c off) h = holds-Shows mem file at p s h

-- At place `x` of the file the scanner finds what it looks for, and all operations of the recipe,
-- one of the scanner's, match.
pub record FileMatches (file : Memory) (sc : Scanner) (x : ℕ) (r : Recipe) : Type 0 where
  pub wanted : wants file sc.func 0 0 (x + sc.offset) ≡ true
  pub member : Any (λ q. q ≡ r) sc.recipes
  pub ops_hold : ops_match file x r.ops ≡ true

-- A match in a window at the start of the buffer is one of the file.
pub Matches-file :
    (mem file : Memory) (sc : Scanner) (len overlap at i : ℕ) (r : Recipe)
    → Fits overlap sc
    → Shows mem file at 0 (len + overlap)
    → Matches mem sc (record { scanbuf = 0; len = len; filepos = at }) i r
    → FileMatches file sc (at + i) r
Matches-file mem file sc len overlap at i r fits shows m =
    let z : at + (0 + (i + sc.offset)) ≡ at + i + sc.offset = omega arith in
    let y : at + (0 + i) ≡ at + i = omega arith in
    record {
      wanted =
          subst (λ (x : ℕ). wants file sc.func 0 0 x ≡ true) z
            (sym (
                wants-Shows mem file at (0 + (i + sc.offset)) sc.func
                  (λ k lo hi. shows k (omega arith) (omega (arith, m.inside, fits.scan_fits))))
              ∙ m.wanted);
      member = m.member;
      ops_hold =
          subst (λ (x : ℕ). ops_match file x r.ops ≡ true) y
            (sym (
                ops_match-Shows mem file at (0 + i) overlap r.ops (fits.ops_fit r m.member)
                  (λ k lo hi. shows k (omega arith) (omega (arith, m.inside))))
              ∙ m.ops_hold);
    }
