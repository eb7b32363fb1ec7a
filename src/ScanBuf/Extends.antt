-- ===== src/ScanBuf/Extends.antt =====
-- How the state of `scan_buf` in src/magicrescue.c grows.
use magicrescue.Base.{
  ℕ, zero, suc, ◌+◌, ◌-◌, ◌≡◌, inl, inr, refl, Bool, true, false, Option, none, some, List, [], ◌∷◌,
  ltb, Any, Any-append_left, Any-append_right, Option-cases, Bool-cases,
}
use magicrescue.Memory.{Memory}
use magicrescue.Recipe.{Recipe, ops_match}
use magicrescue.Scanner.{Scanner, run_scan}
use magicrescue.ScanBuf.{
  Window, Scan, in_skip_range, to_skip, extract_at, after_extract, try_recipes, visit,
  unless_failed, at_hit, scan_loop, scan_all,
}
use magicrescue.ScanBuf.Ranges.{Covered, add_range-Covered}

module _ {W : Type 0} where
  -- The scan has reported recipe `r` at file position `x`.
  abbrev pub Reported : Scan W → Recipe → ℕ → Type 0
  Reported s r x = Any (λ f. f ≡ (r, x)) s.found

  pub record Extends (s s' : Scan W) : Type 0 where
    pub found : (r : Recipe) (x : ℕ) → Reported s r x → Reported s' r x
    pub covered : (x : ℕ) → Covered s.ranges x → Covered s'.ranges x

  pub Extends-refl : (s : Scan W) → Extends s s
  Extends-refl s = record { found = λ r x h. h; covered = λ x h. h }

  pub Extends-trans : {s t u : Scan W} → Extends s t → Extends t u → Extends s u
  Extends-trans a b = record {
    found = λ r x h. b.found r x (a.found r x h);
    covered = λ x h. b.covered x (a.covered x h);
  }

module _ {W : Type 0} (extract : Recipe → ℕ → W → Option ℕ × W) where
  extract_at-Extends : (r : Recipe) (x : ℕ) (s : Scan W) → Extends s (extract_at extract r x s).1
  unfolding extract_at
  extract_at-Extends r x s = record {
    found = λ q y h. Any-append_left (λ f. f ≡ (q, y)) s.found ((r, x) ∷ []) h;
    covered = λ y h. h;
  }

  pub extract_at-Reported :
      (r : Recipe) (x : ℕ) (s : Scan W) → Reported (extract_at extract r x s).1 r x
  unfolding extract_at
  extract_at-Reported r x s = Any-append_right (λ f. f ≡ (r, x)) s.found ((r, x) ∷ []) (inl refl)

  after_extract-Extends :
      (r : Recipe) (x : ℕ) (size : Option ℕ) (s : Scan W) (next : Scan W → Scan W × Bool)
      → Extends s (next s).0
      → Extends s (after_extract extract r x size s next).0
  unfolding after_extract
  after_extract-Extends r x none s next h = Extends-refl s
  after_extract-Extends r x (some size) s next h =
      elim (Option-cases (to_skip r.allow_overlap size)) [
        | inl e ↦ rw (e, after_extract) h
        | inr (n, e) ↦
            rw (e, after_extract)
              (record {
                found = λ q y h. h;
                covered = λ y h.
                    add_range-Covered s.ranges (record { begin = some x; end = x + n }) y (inl h);
              })
      ]

  pub try_recipes-Extends :
      (mem : Memory) (p x : ℕ) (rs : List Recipe) (s : Scan W)
      → Extends s (try_recipes extract mem p x rs s).0
  unfolding try_recipes
  try_recipes-Extends mem p x [] s = Extends-refl s
  try_recipes-Extends mem p x (r ∷ rs) s = elim (Bool-cases (ops_match mem p r.ops)) [
    | inr e ↦ rw (e, try_recipes) (try_recipes-Extends mem p x rs s)
    | inl e ↦
        let t = (extract_at extract r x s).1 in
        rw (e, try_recipes)
          (Extends-trans (extract_at-Extends r x s) (
            after_extract-Extends r x (extract_at extract r x s).0 t
              (try_recipes extract mem p x rs) (try_recipes-Extends mem p x rs t)))
  ]

  visit-Extends :
      (mem : Memory) (sc : Scanner) (w : Window) (i : ℕ) (s : Scan W)
      → Extends s (visit extract mem sc w i s).0
  unfolding visit
  visit-Extends mem sc w i s = elim (Bool-cases (in_skip_range s.ranges (w.filepos + i))) [
    | inl e ↦ rw (e, visit) (Extends-refl s)
    | inr e ↦ rw (e, visit) (try_recipes-Extends mem (w.scanbuf + i) (w.filepos + i) sc.recipes s)
  ]

  unless_failed-Extends :
      (next : Scan W → Scan W × Bool) (s : Scan W) (r : Scan W × Bool)
      → Extends s r.0
      → ((t : Scan W) → Extends t (next t).0)
      → Extends s (unless_failed extract next r).0
  unless_failed-Extends next s (t, true) h k = h
  unless_failed-Extends next s (t, false) h k = Extends-trans h (k t)

  at_hit-Extends :
      (mem : Memory) (sc : Scanner) (w : Window) (s : Scan W) (next : ℕ → Scan W → Scan W × Bool)
      (o : Option ℕ)
      → ((q : ℕ) (t : Scan W) → Extends t (next q t).0)
      → Extends s (at_hit extract mem sc w s next o).0
  unfolding at_hit
  at_hit-Extends mem sc w s next none h = Extends-refl s
  at_hit-Extends mem sc w s next (some a) h =
      let i = a - sc.offset - w.scanbuf in
      unless_failed-Extends (next (i + (sc.offset + 1))) s (visit extract mem sc w i s)
        (visit-Extends mem sc w i s) (h (i + (sc.offset + 1)))

  pub scan_loop-Extends :
      (fuel : ℕ) (mem : Memory) (sc : Scanner) (w : Window) (q : ℕ) (s : Scan W)
      → Extends s (scan_loop extract fuel mem sc w q s).0
  unfolding scan_loop
  scan_loop-Extends zero mem sc w q s = Extends-refl s
  scan_loop-Extends (suc fuel) mem sc w q s = elim (Bool-cases (ltb q w.len)) [
    | inr e ↦ rw (e, scan_loop) (Extends-refl s)
    | inl e ↦
        rw (e, scan_loop)
          (at_hit-Extends mem sc w s (scan_loop extract fuel mem sc w)
            (run_scan mem sc.func (w.scanbuf + q) (w.len - q + sc.offset) (w.filepos + q))
            (scan_loop-Extends fuel mem sc w))
  ]

  pub scan_all-Extends :
      (mem : Memory) (scs : List Scanner) (w : Window) (s : Scan W)
      → Extends s (scan_all extract mem scs w s).0
  unfolding scan_all
  scan_all-Extends mem [] w s = Extends-refl s
  scan_all-Extends mem (sc ∷ scs) w s =
      unless_failed-Extends (scan_all extract mem scs w) s
        (scan_loop extract (suc w.len) mem sc w sc.offset s)
        (scan_loop-Extends (suc w.len) mem sc w sc.offset s) (scan_all-Extends mem scs w)
