-- ===== src/ScanBuf/Complete.antt =====
-- What the loops of `scan_buf` in src/magicrescue.c do at a place that matches.
use mathlib.Core.Path.{subst}
use magicrescue.Base.{
  ℕ, zero, suc, ◌+◌, ◌-◌, ◌≤◌, ◌<◌, ◌≡◌, ◌⊎◌, inl, inr, refl, sym, ◌∙◌, Bool, true, false, Option,
  none, some, List, [], ◌∷◌, ltb, arith, Any, Option-cases, Bool-cases, lt→ltb, ltb→lt,
}
use magicrescue.Base.Int.{ℤ, pos, negsuc}
use magicrescue.Memory.{Memory}
use magicrescue.Memory.First.{First}
use magicrescue.Recipe.{Recipe, ops_match}
use magicrescue.Scanner.{Scanner, ScanFunc, unset, scan_char, scan_block, scan_string, run_scan}
use magicrescue.Scanner.Magic.{IsReady, wants, run_scan-First}
use magicrescue.ScanBuf.{
  Window, Scan, in_skip_range, to_skip, extract_at, after_extract, try_recipes, visit,
  unless_failed, at_hit, scan_loop, scan_all,
}
use magicrescue.ScanBuf.Ranges.{Covered, add_range-Covered, in_skip_range-Covered}
use magicrescue.ScanBuf.Extends.{
  Reported, Extends, extract_at-Reported, try_recipes-Extends, scan_loop-Extends, scan_all-Extends,
}

to_skip-pos : (a : ℤ) (size n : ℕ) → to_skip a size ≡ some n → 0 < n
to_skip-pos (pos a) size n e = ground arith
to_skip-pos (negsuc a) size n e = absurd (cc)

-- The same place, seen from another start of the buffer over the same bytes.
pub wants-window :
    (mem : Memory) (f : ScanFunc) (sb fp sb' fp' a : ℕ)
    → sb' + fp ≡ sb + fp'
    → sb ≤ sb'
    → sb' ≤ a
    → wants mem f sb' fp' a ≡ wants mem f sb fp a
wants-window mem unset sb fp sb' fp' a e g h = refl
wants-window mem (scan_char c) sb fp sb' fp' a e g h = refl
wants-window mem (scan_block b) sb fp sb' fp' a e g h =
    let z : fp' + (a - sb') ≡ fp + (a - sb) = omega arith in rw z
wants-window mem (scan_string s c off) sb fp sb' fp' a e g h = refl

pub wants-shift :
    (mem : Memory) (f : ScanFunc) (sb fp q a : ℕ)
    → sb + q ≤ a
    → wants mem f (sb + q) (fp + q) a ≡ wants mem f sb fp a
wants-shift mem f sb fp q a h =
    wants-window mem f sb fp (sb + q) (fp + q) a (omega arith) (omega arith) h

module _ {W : Type 0} where
  abbrev pub Handled : Scan W → Recipe → ℕ → Type 0
  Handled s r x = Reported s r x ⊎ Covered s.ranges x

  pub Handled-Extends :
      {s t : Scan W} (r : Recipe) (x : ℕ) → Extends s t → Handled s r x → Handled t r x
  Handled-Extends r x e (inl h) = inl (e.found r x h)
  Handled-Extends r x e (inr h) = inr (e.covered x h)

  -- The run did not fail, or what it says does not matter.
  abbrev pub Done : Scan W × Bool → Recipe → ℕ → Type 0
  Done p r x = p.1 ≡ false → Handled p.0 r x

module _ {W : Type 0} (extract : Recipe → ℕ → W → Option ℕ × W) (q : Recipe) (x : ℕ) where
  unless_failed-first :
      (next : Scan W → Scan W × Bool) (p : Scan W × Bool)
      → ((t : Scan W) → Extends t (next t).0)
      → Done p q x
      → Done (unless_failed extract next p) q x
  unless_failed-first next (s, true) e d f = absurd (cc)
  unless_failed-first next (s, false) e d f = Handled-Extends q x (e s) (d refl)

  unless_failed-next :
      (next : Scan W → Scan W × Bool) (p : Scan W × Bool)
      → ((t : Scan W) → Done (next t) q x)
      → Done (unless_failed extract next p) q x
  unless_failed-next next (s, true) d f = absurd (cc)
  unless_failed-next next (s, false) d f = d s f

  after_extract-Done :
      (r : Recipe) (size : Option ℕ) (s : Scan W) (next : Scan W → Scan W × Bool)
      → Done (next s) q x
      → Done (after_extract extract r x size s next) q x
  unfolding after_extract
  after_extract-Done r none s next d = λ f. absurd (cc)
  after_extract-Done r (some size) s next d = elim (Option-cases (to_skip r.allow_overlap size)) [
    | inl e ↦ rw (e, after_extract, Done) d
    | inr (n, e) ↦
        rw (e, after_extract, Done)
          (λ f. inr (
            add_range-Covered s.ranges (record { begin = some x; end = x + n }) x
              (inr (omega arith, omega (arith, to_skip-pos r.allow_overlap size n e)))))
  ]

  -- After the loop over the recipes, each one that matches is reported, or the place is covered.
  try_recipes-Done :
      (mem : Memory) (p : ℕ) (rs : List Recipe) (s : Scan W)
      → Any (λ r. r ≡ q) rs
      → ops_match mem p q.ops ≡ true
      → Done (try_recipes extract mem p x rs s) q x
  unfolding try_recipes
  try_recipes-Done mem p [] s m h = absurd m
  try_recipes-Done mem p (r ∷ rs) s (inl e) h =
      let t = (extract_at extract r x s).1 in
      let match : ops_match mem p r.ops ≡ true =
        subst (λ z. ops_match mem p z.ops ≡ true) (sym e) h in
      rw (match, try_recipes, Done)
        (after_extract-Done r (extract_at extract r x s).0 t (try_recipes extract mem p x rs) (λ f.
          inl (
            (try_recipes-Extends extract mem p x rs t).found q x
              (subst (λ z. Reported t z x) e (extract_at-Reported extract r x s)))))
  try_recipes-Done mem p (r ∷ rs) s (inr m) h = elim (Bool-cases (ops_match mem p r.ops)) [
    | inr no_match ↦ rw (no_match, try_recipes, Done) (try_recipes-Done mem p rs s m h)
    | inl match ↦
        rw (match, try_recipes, Done)
          (after_extract-Done r (extract_at extract r x s).0 (extract_at extract r x s).1
            (try_recipes extract mem p x rs)
            (try_recipes-Done mem p rs (extract_at extract r x s).1 m h))
  ]

-- One scanner that is ready, over the memory: at `i` it finds what it looks for, and `r` matches.
module _ {W : Type 0} (extract : Recipe → ℕ → W → Option ℕ × W) (mem : Memory) (sc : Scanner)
    (w : Window) (r : Recipe) (i : ℕ) (ready : IsReady sc.func)
    (wanted : wants mem sc.func w.scanbuf w.filepos (w.scanbuf + (i + sc.offset)) ≡ true)
    (member : Any (λ q. q ≡ r) sc.recipes)
    (matches : ops_match mem (w.scanbuf + i) r.ops ≡ true) where
  visit-Done : (s : Scan W) → Done (visit extract mem sc w i s) r (w.filepos + i)
  unfolding visit
  visit-Done s = elim (Bool-cases (in_skip_range s.ranges (w.filepos + i))) [
    | inl e ↦ rw (e, visit, Done) (λ f. inr (in_skip_range-Covered s.ranges (w.filepos + i) e))
    | inr e ↦
        rw (e, visit, Done)
          (try_recipes-Done extract r (w.filepos + i) mem (w.scanbuf + i) sc.recipes s member
            matches)
  ]

  at_hit-Done :
      (q : ℕ) (s : Scan W) (next : ℕ → Scan W → Scan W × Bool) (o : Option ℕ)
      → sc.offset ≤ q
      → q ≤ i + sc.offset
      → i + sc.offset < w.len
      → First
          (wants mem sc.func (w.scanbuf + q) (w.filepos + q))
          (w.scanbuf + q)
          (w.scanbuf + q + (w.len - q + sc.offset))
          o
      → ((k : ℕ) (t : Scan W) → Extends t (next k t).0)
      → ((k : ℕ) (t : Scan W)
          → q < k
          → sc.offset ≤ k
          → k ≤ i + sc.offset
          → Done (next k t) r (w.filepos + i))
      → Done (at_hit extract mem sc w s next o) r (w.filepos + i)
  unfolding at_hit
  at_hit-Done q s next none a b c first ext rec = λ f.
      let hit =
        wants-shift mem sc.func w.scanbuf w.filepos q (w.scanbuf + (i + sc.offset)) (omega arith)
        ∙ wanted in
      cc (hit, first (w.scanbuf + (i + sc.offset)) (omega arith) (omega arith))
  at_hit-Done q s next (some p) a b c first ext rec =
      elim (Bool-cases (ltb p (w.scanbuf + (i + sc.offset)))) [
        | inl before ↦
            unless_failed-next extract r (w.filepos + i)
              (next (p - sc.offset - w.scanbuf + (sc.offset + 1)))
              (visit extract mem sc w (p - sc.offset - w.scanbuf) s)
              (λ t.
                rec (p - sc.offset - w.scanbuf + (sc.offset + 1)) t (omega arith) (omega arith)
                  (omega (arith, ltb→lt _ _ before)))
        | inr not_before ↦ elim (Bool-cases (ltb (w.scanbuf + (i + sc.offset)) p)) [
          | inl behind ↦ λ f.
              let hit =
                wants-shift mem sc.func w.scanbuf w.filepos q (w.scanbuf + (i + sc.offset))
                  (omega arith)
                ∙ wanted in
              cc (hit, first.3 (w.scanbuf + (i + sc.offset)) (omega arith) (ltb→lt _ _ behind))
          | inr here ↦
              let e : i ≡ p - sc.offset - w.scanbuf = ground arith in
              subst
                (λ (j : ℕ).
                  Done
                    (unless_failed extract (next (j + (sc.offset + 1)))
                      (visit extract mem sc w j s))
                    r (w.filepos + i))
                e
                (unless_failed-first extract r (w.filepos + i) (next (i + (sc.offset + 1)))
                  (visit extract mem sc w i s) (ext (i + (sc.offset + 1))) (visit-Done s))
        ]
      ]

  scan_loop-Done :
      (fuel q : ℕ) (s : Scan W)
      → sc.offset ≤ q
      → q ≤ i + sc.offset
      → i + sc.offset < w.len
      → w.len < q + fuel
      → Done (scan_loop extract fuel mem sc w q s) r (w.filepos + i)
  unfolding scan_loop
  scan_loop-Done zero q s a b c f = absurd (omega arith)
  scan_loop-Done (suc fuel) q s a b c f =
      rw (lt→ltb q w.len (omega arith), scan_loop, Done)
        (at_hit-Done q s (scan_loop extract fuel mem sc w)
          (run_scan mem sc.func (w.scanbuf + q) (w.len - q + sc.offset) (w.filepos + q)) a b c
          (run_scan-First mem sc.func (w.scanbuf + q) (w.len - q + sc.offset) (w.filepos + q) ready
            (omega arith))
          (scan_loop-Extends extract fuel mem sc w)
          (λ k t x y z. scan_loop-Done fuel k t y z c (omega arith)))

  pub scan_all-Done :
      (scs : List Scanner) (s : Scan W)
      → i + sc.offset < w.len
      → Any (λ t. t ≡ sc) scs
      → Done (scan_all extract mem scs w s) r (w.filepos + i)
  unfolding scan_all
  scan_all-Done [] s c m = absurd m
  scan_all-Done (t ∷ scs) s c (inl e) =
      unless_failed-first extract r (w.filepos + i) (scan_all extract mem scs w)
        (scan_loop extract (suc w.len) mem t w t.offset s) (scan_all-Extends extract mem scs w)
        (subst (λ u. Done (scan_loop extract (suc w.len) mem u w u.offset s) r (w.filepos + i))
          (sym e)
          (scan_loop-Done (suc w.len) sc.offset s (omega arith) (omega arith) c (omega arith)))
  scan_all-Done (t ∷ scs) s c (inr m) =
      unless_failed-next extract r (w.filepos + i) (scan_all extract mem scs w)
        (scan_loop extract (suc w.len) mem t w t.offset s) (λ u. scan_all-Done scs u c m)
