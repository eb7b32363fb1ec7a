-- ===== src/ScanBuf/Sound.antt =====
-- The places that `scan_buf` of src/magicrescue.c reports.
use mathlib.Core.Path.{subst}
use magicrescue.Base.{
  ℕ, zero, suc, ◌+◌, ◌-◌, ◌≤◌, ◌<◌, ◌≡◌, inl, inr, refl, sym, ◌∙◌, Bool, true, false, Option, none,
  some, List, [], ◌∷◌, ltb, arith, Any, All, All-append, Option-cases, Bool-cases, ltb→lt,
}
use magicrescue.Memory.{Memory}
use magicrescue.Memory.First.{First}
use magicrescue.Recipe.{Recipe, ops_match}
use magicrescue.Scanner.{Scanner, run_scan}
use magicrescue.Scanner.Magic.{IsReady, wants, run_scan-First}
use magicrescue.ScanBuf.{
  Window, Scan, in_skip_range, to_skip, extract_at, after_extract, try_recipes, visit,
  unless_failed, at_hit, scan_loop, scan_all,
}
use magicrescue.ScanBuf.Complete.{wants-shift}

-- The place `i` of the window is one of the scanner, and the recipe matches there.
pub record Matches (mem : Memory) (sc : Scanner) (w : Window) (i : ℕ) (r : Recipe) : Type 0 where
  pub inside : i < w.len
  pub wanted : wants mem sc.func w.scanbuf w.filepos (w.scanbuf + (i + sc.offset)) ≡ true
  pub member : Any (λ q. q ≡ r) sc.recipes
  pub ops_hold : ops_match mem (w.scanbuf + i) r.ops ≡ true

-- A property of reports that holds of all places that match.
module _ {W : Type 0} (extract : Recipe → ℕ → W → Option ℕ × W) (P : Recipe × ℕ → Type 0)
    (mem : Memory) (w : Window) where
  abbrev Keeps : Scan W × Bool → Type 0
  Keeps p = All P p.0.found

  after_extract-Keeps :
      (r : Recipe) (x : ℕ) (size : Option ℕ) (s : Scan W) (next : Scan W → Scan W × Bool)
      → All P s.found
      → Keeps (next s)
      → Keeps (after_extract extract r x size s next)
  unfolding after_extract
  after_extract-Keeps r x none s next a k = a
  after_extract-Keeps r x (some size) s next a k =
      elim (Option-cases (to_skip r.allow_overlap size)) [
        | inl e ↦ rw (e, after_extract, Keeps) k
        | inr (n, e) ↦ rw (e, after_extract, Keeps) a
      ]

  try_recipes-Keeps :
      (p x : ℕ) (rs : List Recipe) (s : Scan W)
      → ((r : Recipe) → Any (λ q. q ≡ r) rs → ops_match mem p r.ops ≡ true → P (r, x))
      → All P s.found
      → Keeps (try_recipes extract mem p x rs s)
  unfolding try_recipes extract_at
  try_recipes-Keeps p x [] s g a = a
  try_recipes-Keeps p x (r ∷ rs) s g a = elim (Bool-cases (ops_match mem p r.ops)) [
    | inr e ↦ rw (e, try_recipes, Keeps) (try_recipes-Keeps p x rs s (λ q m. g q (inr m)) a)
    | inl e ↦
        let t = (extract_at extract r x s).1 in
        let b : All P t.found = All-append P s.found ((r, x) ∷ []) a (g r (inl refl) e, tt) in
        rw (e, try_recipes, Keeps)
          (after_extract-Keeps r x (extract_at extract r x s).0 t (try_recipes extract mem p x rs) b
            (try_recipes-Keeps p x rs t (λ q m. g q (inr m)) b))
  ]

  unless_failed-Keeps :
      (next : Scan W → Scan W × Bool) (p : Scan W × Bool)
      → Keeps p
      → ((t : Scan W) → All P t.found → Keeps (next t))
      → Keeps (unless_failed extract next p)
  unless_failed-Keeps next (s, true) a k = a
  unless_failed-Keeps next (s, false) a k = k s a

  module _ (sc : Scanner) (ready : IsReady sc.func)
      (good : (r : Recipe) (i : ℕ) → Matches mem sc w i r → P (r, w.filepos + i)) where
    visit-Keeps :
        (i : ℕ) (s : Scan W)
        → i < w.len
        → wants mem sc.func w.scanbuf w.filepos (w.scanbuf + (i + sc.offset)) ≡ true
        → All P s.found
        → Keeps (visit extract mem sc w i s)
    unfolding visit
    visit-Keeps i s h k a = elim (Bool-cases (in_skip_range s.ranges (w.filepos + i))) [
      | inl e ↦ rw (e, visit, Keeps) a
      | inr e ↦
          rw (e, visit, Keeps)
            (try_recipes-Keeps (w.scanbuf + i) (w.filepos + i) sc.recipes s
              (λ r m o. good r i (record { inside = h; wanted = k; member = m; ops_hold = o })) a)
    ]

    at_hit-Keeps :
        (q : ℕ) (s : Scan W) (next : ℕ → Scan W → Scan W × Bool) (o : Option ℕ)
        → sc.offset ≤ q
        → q < w.len
        → First
            (wants mem sc.func (w.scanbuf + q) (w.filepos + q))
            (w.scanbuf + q)
            (w.scanbuf + q + (w.len - q + sc.offset))
            o
        → ((k : ℕ) (t : Scan W) → sc.offset ≤ k → All P t.found → Keeps (next k t))
        → All P s.found
        → Keeps (at_hit extract mem sc w s next o)
    unfolding at_hit
    at_hit-Keeps q s next none a b first rec h = h
    at_hit-Keeps q s next (some p) a b first rec h =
        let i = p - sc.offset - w.scanbuf in
        let e : p ≡ w.scanbuf + (i + sc.offset) = omega arith in
        let hit : wants mem sc.func w.scanbuf w.filepos (w.scanbuf + (i + sc.offset)) ≡ true =
          subst (λ (z : ℕ). wants mem sc.func w.scanbuf w.filepos z ≡ true) e
            (sym (wants-shift mem sc.func w.scanbuf w.filepos q p first.0) ∙ first.2) in
        unless_failed-Keeps (next (i + (sc.offset + 1))) (visit extract mem sc w i s)
          (visit-Keeps i s (omega arith) hit h) (λ t. rec (i + (sc.offset + 1)) t (omega arith))

    scan_loop-Keeps :
        (fuel q : ℕ) (s : Scan W)
        → sc.offset ≤ q
        → All P s.found
        → Keeps (scan_loop extract fuel mem sc w q s)
    unfolding scan_loop
    scan_loop-Keeps zero q s a h = h
    scan_loop-Keeps (suc fuel) q s a h = elim (Bool-cases (ltb q w.len)) [
      | inr e ↦ rw (e, scan_loop, Keeps) h
      | inl e ↦
          rw (e, scan_loop, Keeps)
            (at_hit-Keeps q s (scan_loop extract fuel mem sc w)
              (run_scan mem sc.func (w.scanbuf + q) (w.len - q + sc.offset) (w.filepos + q)) a
              (ltb→lt _ _ e)
              (run_scan-First mem sc.func (w.scanbuf + q) (w.len - q + sc.offset) (w.filepos + q)
                ready (omega (arith, ltb→lt _ _ e)))
              (scan_loop-Keeps fuel) h)
    ]

  pub scan_all-Keeps :
      (scs : List Scanner) (s : Scan W)
      → All (λ sc. IsReady sc.func) scs
      → ((sc : Scanner) (r : Recipe) (i : ℕ)
          → Any (λ t. t ≡ sc) scs
          → Matches mem sc w i r
          → P (r, w.filepos + i))
      → All P s.found
      → Keeps (scan_all extract mem scs w s)
  unfolding scan_all
  scan_all-Keeps [] s ready good h = h
  scan_all-Keeps (sc ∷ scs) s ready good h =
      unless_failed-Keeps (scan_all extract mem scs w)
        (scan_loop extract (suc w.len) mem sc w sc.offset s)
        (scan_loop-Keeps sc ready.0 (λ r i. good sc r i (inl refl)) (suc w.len) sc.offset s
          (omega arith) h)
        (λ t. scan_all-Keeps scs t ready.1 (λ u r i m. good u r i (inr m)))
