-- ===== src/ScanBuf/Whole.antt =====
-- `scan_buf` of src/magicrescue.c as a whole: what it reports, and what it passes over.
use mathlib.Core.Path.{subst}
use magicrescue.Base.{
  ℕ, ◌+◌, ◌-◌, ◌≤◌, ◌<◌, ◌≡◌, inl, inr, refl, sym, ◌∙◌, true, false, Option, some, List, ltb, arith,
  Any, All, Option-cases, Bool-cases, ltb→lt,
}
use magicrescue.Memory.{Memory}
use magicrescue.Recipe.{Recipe, ops_match}
use magicrescue.Scanner.{Scanner}
use magicrescue.Scanner.Magic.{IsReady, wants}
use magicrescue.ScanBuf.{Window, Scan, skip_loop, scan_all, scan_buf}
use magicrescue.ScanBuf.Ranges.{
  StartsBy, Shifts, skip_loop-Covered, skip_loop-ShiftsTo, skip_loop_keeps,
}
use magicrescue.ScanBuf.Extends.{scan_all-Extends}
use magicrescue.ScanBuf.Complete.{wants-window, Handled, Handled-Extends, Done, scan_all-Done}
use magicrescue.ScanBuf.Sound.{Matches, scan_all-Keeps}

-- A match in a later part of the window is one of the window.
Matches-shift :
    (mem : Memory) (sc : Scanner) (w w' : Window) (i : ℕ) (r : Recipe)
    → Shifts w w'
    → Matches mem sc w' i r
    → Matches mem sc w (w'.filepos + i - w.filepos) r
Matches-shift mem sc w w' i r sh m =
    let e : w'.scanbuf + i ≡ w.scanbuf + (w'.filepos + i - w.filepos) = omega arith in
    let a : w'.scanbuf + (i + sc.offset) ≡ w.scanbuf + (w'.filepos + i - w.filepos + sc.offset) =
      omega arith in
    record {
      inside = omega arith;
      wanted =
          subst (λ (z : ℕ). wants mem sc.func w.scanbuf w.filepos z ≡ true) a
            (sym (
                wants-window mem sc.func w.scanbuf w.filepos w'.scanbuf w'.filepos
                  (w'.scanbuf + (i + sc.offset)) (omega arith) (omega arith) (omega arith))
              ∙ m.wanted);
      member = m.member;
      ops_hold = subst (λ (z : ℕ). ops_match mem z r.ops ≡ true) e m.ops_hold;
    }

-- A match of the window that is not taken off it is one of what is left.
Matches-left :
    (mem : Memory) (sc : Scanner) (w w' : Window) (i : ℕ) (r : Recipe)
    → Shifts w w'
    → w'.filepos ≤ w.filepos + i
    → Matches mem sc w i r
    → Matches mem sc w' (w.filepos + i - w'.filepos) r
Matches-left mem sc w w' i r sh le m =
    let e : w.scanbuf + i ≡ w'.scanbuf + (w.filepos + i - w'.filepos) = omega arith in
    let a : w.scanbuf + (i + sc.offset) ≡ w'.scanbuf + (w.filepos + i - w'.filepos + sc.offset) =
      omega arith in
    record {
      inside = omega arith;
      wanted =
          wants-window mem sc.func w.scanbuf w.filepos w'.scanbuf w'.filepos
            (w'.scanbuf + (w.filepos + i - w'.filepos + sc.offset)) (omega arith) (omega arith)
            (omega arith)
          ∙ subst (λ (z : ℕ). wants mem sc.func w.scanbuf w.filepos z ≡ true) a m.wanted;
      member = m.member;
      ops_hold = subst (λ (z : ℕ). ops_match mem z r.ops ≡ true) e m.ops_hold;
    }

module _ {W : Type 0} (extract : Recipe → ℕ → W → Option ℕ × W) (mem : Memory) (scs : List Scanner)
    (w : Window) (s : Scan W) where
  -- Where a report comes from: a place of the window, a scanner and a recipe that match there.
  abbrev pub Justified : Recipe × ℕ → Type 0
  Justified f =
      (sc : Scanner) × (i : ℕ) × Any (λ t. t ≡ sc) scs
      × Matches mem sc w i f.0
      × (f.1 ≡ w.filepos + i)

  -- A property of reports that every match of the window has is kept.
  pub scan_buf-Keeps :
      (P : Recipe × ℕ → Type 0)
      → All (λ sc. IsReady sc.func) scs
      → ((sc : Scanner) (r : Recipe) (i : ℕ)
          → Any (λ t. t ≡ sc) scs
          → Matches mem sc w i r
          → P (r, w.filepos + i))
      → All P s.found
      → All P (scan_buf extract mem scs w s).0.found
  unfolding scan_buf
  scan_buf-Keeps P ready good old = elim (Option-cases (skip_loop s.ranges w).1) [
    | inl e ↦ rw (e, scan_buf) old
    | inr (w', e) ↦
        let sh : Shifts w w' = rw e at (skip_loop-ShiftsTo s.ranges w) in
        rw (e, scan_buf)
          (scan_all-Keeps extract P mem w' scs
            (record s { ranges = (skip_loop s.ranges w).0; changed = false }) ready
            (λ sc r i m k.
              let z : w.filepos + (w'.filepos + i - w.filepos) ≡ w'.filepos + i = omega arith in
              subst (λ (x : ℕ). P (r, x)) z
                (good sc r (w'.filepos + i - w.filepos) m (Matches-shift mem sc w w' i r sh k)))
            old)
  ]

  -- Every report of `scan_buf` is justified, if the reports before it are: its place lies in the
  -- window, a scanner in the list found there what it looks for, and all the operations of the
  -- recipe, one of that scanner's, match there.
  pub scan_buf-Justified :
      All (λ sc. IsReady sc.func) scs
      → All Justified s.found
      → All Justified (scan_buf extract mem scs w s).0.found
  scan_buf-Justified ready old =
      scan_buf-Keeps Justified ready (λ sc r i m k. (sc, i, m, k, refl)) old

  -- If `scan_buf` does not fail, every match of a recipe in its window, for a scanner of the list that
  -- is ready, is reported, or lies in a range to skip after it, if it stands further from the end of
  -- the window than the scanner's offset. No range may begin behind the start of the window.
  pub scan_buf-Handled :
      (sc : Scanner) (r : Recipe) (i : ℕ)
      → All (λ q. StartsBy w.filepos q.begin) s.ranges
      → Any (λ t. t ≡ sc) scs
      → IsReady sc.func
      → Matches mem sc w i r
      → i + sc.offset < w.len
      → (scan_buf extract mem scs w s).1 ≡ false
      → Handled (scan_buf extract mem scs w s).0 r (w.filepos + i)
  unfolding scan_buf
  scan_buf-Handled sc r i starts m ready k c = elim (Option-cases (skip_loop s.ranges w).1) [
    | inl e ↦
        rw (e, scan_buf, Handled)
          (λ f. inr (
            skip_loop_keeps s.ranges w (w.filepos + i) (omega arith) (
              skip_loop-Covered s.ranges w (w.filepos + i) starts (omega arith)
                (rw e (omega arith)))))
    | inr (w', e) ↦ rw (e, scan_buf, Handled) (part w' e)
  ]
    where
      part :
          (w' : Window)
          → (skip_loop s.ranges w).1 ≡ some w'
          → Done
              (scan_all extract mem scs w'
                (record s { ranges = (skip_loop s.ranges w).0; changed = false }))
              r
              (w.filepos + i)
      part w' e = elim (Bool-cases (ltb (w.filepos + i) w'.filepos)) [
        | inl before ↦ λ f.
            Handled-Extends r (w.filepos + i)
              (scan_all-Extends extract mem scs w'
                (record s { ranges = (skip_loop s.ranges w).0; changed = false }))
              (inr (
                skip_loop_keeps s.ranges w (w.filepos + i) (omega arith) (
                  skip_loop-Covered s.ranges w (w.filepos + i) starts (omega arith)
                    (rw e (ltb→lt _ _ before)))))
        | inr after ↦
            let sh : Shifts w w' = rw e at (skip_loop-ShiftsTo s.ranges w) in
            let k' = Matches-left mem sc w w' i r sh (ground arith) k in
            let z : w'.filepos + (w.filepos + i - w'.filepos) ≡ w.filepos + i = ground arith in
            subst
              (λ (x : ℕ).
                Done
                  (scan_all extract mem scs w'
                    (record s { ranges = (skip_loop s.ranges w).0; changed = false }))
                  r x)
              z
              (scan_all-Done extract mem sc w' r (w.filepos + i - w'.filepos) ready k'.wanted
                k'.member k'.ops_hold scs
                (record s { ranges = (skip_loop s.ranges w).0; changed = false }) (ground arith) m)
      ]
