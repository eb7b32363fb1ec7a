-- ===== src/ScanBuf/Frame.antt =====
-- What `scan_buf` of src/magicrescue.c leaves as it is.
use magicrescue.Base.{
  ℕ, zero, suc, ◌+◌, ◌-◌, ◌≡◌, ◌⊎◌, inl, inr, refl, Bool, true, false, Option, none, some, List, [],
  ◌∷◌, ltb, Option-cases, Bool-cases,
}
use magicrescue.Memory.{Memory}
use magicrescue.Recipe.{Recipe, ops_match}
use magicrescue.Scanner.{Scanner, run_scan}
use magicrescue.ScanBuf.{
  Range, Window, Scan, in_skip_range, add_range, to_skip, extract_at, after_extract, try_recipes,
  visit, unless_failed, at_hit, scan_loop, scan_all, skip_loop, scan_buf,
}

module _ {W : Type 0} (extract : Recipe → ℕ → W → Option ℕ × W) (P : Scan W → Type 0)
    (extracted : (r : Recipe) (x : ℕ) (s : Scan W) → P s → P (extract_at extract r x s).1)
    (ranged : (rs : List Range) (s : Scan W) → P s → P (record s { ranges = rs })) where
  after_extract_keeps :
      (r : Recipe) (x : ℕ) (size : Option ℕ) (s : Scan W) (next : Scan W → Scan W × Bool)
      → P s
      → P (next s).0
      → P (after_extract extract r x size s next).0
  unfolding after_extract
  after_extract_keeps r x none s next a k = a
  after_extract_keeps r x (some size) s next a k =
      elim (Option-cases (to_skip r.allow_overlap size)) [
        | inl e ↦ rw (e, after_extract) k
        | inr (n, e) ↦
            rw (e, after_extract)
              (ranged (add_range s.ranges (record { begin = some x; end = x + n })) s a)
      ]

  try_recipes_keeps :
      (mem : Memory) (p x : ℕ) (rs : List Recipe) (s : Scan W)
      → P s
      → P (try_recipes extract mem p x rs s).0
  unfolding try_recipes
  try_recipes_keeps mem p x [] s a = a
  try_recipes_keeps mem p x (r ∷ rs) s a = elim (Bool-cases (ops_match mem p r.ops)) [
    | inr e ↦ rw (e, try_recipes) (try_recipes_keeps mem p x rs s a)
    | inl e ↦
        let t = (extract_at extract r x s).1 in
        rw (e, try_recipes)
          (after_extract_keeps r x (extract_at extract r x s).0 t (try_recipes extract mem p x rs)
            (extracted r x s a) (try_recipes_keeps mem p x rs t (extracted r x s a)))
  ]

  visit_keeps :
      (mem : Memory) (sc : Scanner) (w : Window) (i : ℕ) (s : Scan W)
      → P s
      → P (visit extract mem sc w i s).0
  unfolding visit
  visit_keeps mem sc w i s a = elim (Bool-cases (in_skip_range s.ranges (w.filepos + i))) [
    | inl e ↦ rw (e, visit) a
    | inr e ↦ rw (e, visit) (try_recipes_keeps mem (w.scanbuf + i) (w.filepos + i) sc.recipes s a)
  ]

  unless_failed_keeps :
      (next : Scan W → Scan W × Bool) (p : Scan W × Bool)
      → P p.0
      → ((t : Scan W) → P t → P (next t).0)
      → P (unless_failed extract next p).0
  unless_failed_keeps next (s, true) a k = a
  unless_failed_keeps next (s, false) a k = k s a

  at_hit_keeps :
      (mem : Memory) (sc : Scanner) (w : Window) (s : Scan W) (next : ℕ → Scan W → Scan W × Bool)
      (o : Option ℕ)
      → P s
      → ((q : ℕ) (t : Scan W) → P t → P (next q t).0)
      → P (at_hit extract mem sc w s next o).0
  unfolding at_hit
  at_hit_keeps mem sc w s next none a h = a
  at_hit_keeps mem sc w s next (some p) a h =
      let i = p - sc.offset - w.scanbuf in
      unless_failed_keeps (next (i + (sc.offset + 1))) (visit extract mem sc w i s)
        (visit_keeps mem sc w i s a) (h (i + (sc.offset + 1)))

  scan_loop_keeps :
      (fuel : ℕ) (mem : Memory) (sc : Scanner) (w : Window) (q : ℕ) (s : Scan W)
      → P s
      → P (scan_loop extract fuel mem sc w q s).0
  unfolding scan_loop
  scan_loop_keeps zero mem sc w q s a = a
  scan_loop_keeps (suc fuel) mem sc w q s a = elim (Bool-cases (ltb q w.len)) [
    | inr e ↦ rw (e, scan_loop) a
    | inl e ↦
        rw (e, scan_loop)
          (at_hit_keeps mem sc w s (scan_loop extract fuel mem sc w)
            (run_scan mem sc.func (w.scanbuf + q) (w.len - q + sc.offset) (w.filepos + q)) a
            (scan_loop_keeps fuel mem sc w))
  ]

  scan_all_keeps :
      (mem : Memory) (scs : List Scanner) (w : Window) (s : Scan W)
      → P s
      → P (scan_all extract mem scs w s).0
  unfolding scan_all
  scan_all_keeps mem [] w s a = a
  scan_all_keeps mem (sc ∷ scs) w s a =
      unless_failed_keeps (scan_all extract mem scs w)
        (scan_loop extract (suc w.len) mem sc w sc.offset s)
        (scan_loop_keeps (suc w.len) mem sc w sc.offset s a) (scan_all_keeps mem scs w)

  pub scan_buf_keeps :
      (mem : Memory) (scs : List Scanner) (w : Window) (s : Scan W)
      → P (record s { ranges = (skip_loop s.ranges w).0; changed = false })
      → P (scan_buf extract mem scs w s).0
  unfolding scan_buf
  scan_buf_keeps mem scs w s a = elim (Option-cases (skip_loop s.ranges w).1) [
    | inl e ↦ rw (e, scan_buf) a
    | inr (w', e) ↦ rw (e, scan_buf) (scan_all_keeps mem scs w' _ a)
  ]

module _ {W : Type 0} (extract : Recipe → ℕ → W → Option ℕ × W) where
  extract_at-changed :
      (r : Recipe) (x : ℕ) (s : Scan W) → (extract_at extract r x s).1.changed ≡ true
  unfolding extract_at
  extract_at-changed r x s = refl

  -- If `scan_buf` returns 0, it has called no external program: what `extract` works on, the file
  -- position with it, is as before.
  pub scan_buf-world :
      (mem : Memory) (scs : List Scanner) (w : Window) (s : Scan W)
      → (scan_buf extract mem scs w s).0.changed ≡ false
      → (scan_buf extract mem scs w s).0.world ≡ s.world
  scan_buf-world mem scs w s e = elim kept [ inl c ↦ cc | inr h ↦ h ]
    where
      kept :
          ((scan_buf extract mem scs w s).0.changed ≡ true)
          ⊎ ((scan_buf extract mem scs w s).0.world ≡ s.world)
      kept =
          scan_buf_keeps extract (λ t. (t.changed ≡ true) ⊎ (t.world ≡ s.world))
            (λ r x t h. inl (extract_at-changed r x t)) (λ rs t h. h) mem scs w s (inr refl)
