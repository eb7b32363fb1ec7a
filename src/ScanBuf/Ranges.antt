-- ===== src/ScanBuf/Ranges.antt =====
-- The ranges to skip of `scan_buf` in src/magicrescue.c.
use mathlib.Core.Path.{subst}
use magicrescue.Base.{
  Option-cases, Bool-cases, ltb→lt, ℕ, ◌+◌, ◌≤◌, ◌<◌, ◌≡◌, ◌⊎◌, inl, inr, refl, sym, true, Option,
  none, some, List, [], ◌∷◌, ltb, arith, Any, All, Any-append_left, Any-append_right,
}
use magicrescue.ScanBuf.{
  Range, Window, skip_one, skip_loop, in_skip_range, take_slot, fill_last, add_range,
}

abbrev pub Within : Option ℕ → ℕ → ℕ → Type 0
Within none end x = ⊥
Within (some b) end x = (b ≤ x) × (x < end)

-- Some range in use has the file position `x` inside, its begin counted.
abbrev pub Covered : List Range → ℕ → Type 0
Covered rs x = Any (λ r. Within r.begin r.end x) rs

-- A window with its start moved on over the same bytes, its end left alone.
pub record Shifts (w w' : Window) : Type 0 where
  pub forward : w.filepos ≤ w'.filepos
  pub same_end : w'.filepos + w'.len ≡ w.filepos + w.len
  pub same_place : w'.scanbuf + w.filepos ≡ w.scanbuf + w'.filepos

-- A range in use begins at the window or before it.
abbrev pub StartsBy : ℕ → Option ℕ → Type 0
StartsBy filepos none = Unit
StartsBy filepos (some b) = b ≤ filepos

module _ (r : Range) (w : Window) where
  skip_one-Shifts : {r' : Range} {w' : Window} → skip_one r w ≡ some (r', w') → Shifts w w'
  unfolding skip_one
  skip_one-Shifts e = ground arith

  skip_one-Within :
      (x : ℕ) {r' : Range} {w' : Window}
      → skip_one r w ≡ some (r', w')
      → w.filepos ≤ x
      → x < w'.filepos
      → Within r.begin r.end x
  unfolding skip_one
  skip_one-Within x e h k = ground arith

  skip_one_keeps :
      (x : ℕ) {r' : Range} {w' : Window}
      → skip_one r w ≡ some (r', w')
      → w.filepos ≤ x
      → Within r.begin r.end x
      → Within r'.begin r'.end x
  unfolding skip_one
  skip_one_keeps x e h k = ground arith

  skip_one-none :
      (x : ℕ)
      → skip_one r w ≡ none
      → StartsBy w.filepos r.begin
      → w.filepos ≤ x
      → x < w.filepos + w.len
      → Within r.begin r.end x
  unfolding skip_one
  skip_one-none x e s h k = ground arith

abbrev pub ShiftsTo : Window → Option Window → Type 0
ShiftsTo w none = Unit
ShiftsTo w (some w') = Shifts w w'

-- Where the part of the window that is left begins: at its end, if nothing is left.
abbrev pub left_from : Window → Option Window → ℕ
left_from w none = w.filepos + w.len
left_from w (some w') = w'.filepos

Shifts-trans : {u v w : Window} → Shifts u v → Shifts v w → Shifts u w
Shifts-trans a b = omega arith

ShiftsTo-trans : {u v : Window} (o : Option Window) → Shifts u v → ShiftsTo v o → ShiftsTo u o
ShiftsTo-trans none a b = tt
ShiftsTo-trans (some w) a b = Shifts-trans a b

skip_loop-step :
    (r : Range) (rs : List Range) (w : Window) {r' : Range} {w' : Window}
    → skip_one r w ≡ some (r', w')
    → skip_loop (r ∷ rs) w ≡ (r' ∷ (skip_loop rs w').0, (skip_loop rs w').1)
unfolding skip_loop
skip_loop-step r rs w e = rw (e, skip_loop)

skip_loop-stop :
    (r : Range) (rs : List Range) (w : Window)
    → skip_one r w ≡ none
    → skip_loop (r ∷ rs) w ≡ (r ∷ rs, none)
unfolding skip_loop
skip_loop-stop r rs w e = rw (e, skip_loop)

left_from-eq : {u v : Window} (o : Option Window) → Shifts u v → left_from u o ≡ left_from v o
left_from-eq none a = sym a.same_end
left_from-eq (some w) a = refl

-- What the first loop of `scan_buf` does to the window `w` and to the ranges `rs`: `p` is its result.
pub record Skips (rs : List Range) (w : Window) (p : List Range × Option Window) : Type 0 where
  pub shifts : ShiftsTo w p.1
  pub left_out :
      (x : ℕ)
      → All (λ r. StartsBy w.filepos r.begin) rs
      → w.filepos ≤ x
      → x < left_from w p.1
      → Covered rs x
  pub kept : (x : ℕ) → w.filepos ≤ x → Covered rs x → Covered p.0 x

StartsBy-later : (o : Option ℕ) {x y : ℕ} → x ≤ y → StartsBy x o → StartsBy y o
StartsBy-later none h s = tt
StartsBy-later (some b) h s = omega arith

All-StartsBy :
    (rs : List Range) {x y : ℕ}
    → x ≤ y
    → All (λ r. StartsBy x r.begin) rs
    → All (λ r. StartsBy y r.begin) rs
All-StartsBy [] h s = tt
All-StartsBy (r ∷ rs) h s = (StartsBy-later r.begin h s.0, All-StartsBy rs h s.1)

skip_loop-Skips : (rs : List Range) (w : Window) → Skips rs w (skip_loop rs w)
unfolding skip_loop
skip_loop-Skips [] w = record {
  shifts = record { forward = omega arith; same_end = refl; same_place = refl };
  left_out = λ x s h k. absurd (omega arith);
  kept = λ x h c. c;
}
skip_loop-Skips (r ∷ rs) w = elim (Option-cases (skip_one r w)) [
  | inl e ↦ subst (Skips (r ∷ rs) w) (sym (skip_loop-stop r rs w e)) (record {
    shifts = tt;
    left_out = λ x s h k. inl (skip_one-none r w x e s.0 h k);
    kept = λ x h c. c;
  })
  | inr ((r', w'), e) ↦
      let ih = skip_loop-Skips rs w' in
      let sh : Shifts w w' = skip_one-Shifts r w e in
      subst (Skips (r ∷ rs) w) (sym (skip_loop-step r rs w e)) (record {
        shifts = ShiftsTo-trans (skip_loop rs w').1 sh ih.shifts;
        left_out = λ x s h k. elim (Bool-cases (ltb x w'.filepos)) [
          | inl before ↦ inl (skip_one-Within r w x e h (ltb→lt _ _ before))
          | inr after ↦ inr (
              ih.left_out x (All-StartsBy rs sh.forward s.1) (ground arith)
                (rw (sym (left_from-eq (skip_loop rs w').1 sh)) k))
        ];
        kept = λ x h c. elim c [
          | inl here ↦ inl (skip_one_keeps r w x e h here)
          | inr later ↦ elim (Bool-cases (ltb x w'.filepos)) [
            | inl before ↦
                inl (skip_one_keeps r w x e h (skip_one-Within r w x e h (ltb→lt _ _ before)))
            | inr after ↦ inr (ih.kept x (ground arith) later)
          ]
        ];
      })
]

-- Bytes that the first loop of `scan_buf` takes off the window, all of it or its first part, lie in
-- a range to skip, if no range begins behind the window's start.
pub skip_loop-Covered :
    (rs : List Range) (w : Window) (x : ℕ)
    → All (λ r. StartsBy w.filepos r.begin) rs
    → w.filepos ≤ x
    → x < left_from w (skip_loop rs w).1
    → Covered rs x
skip_loop-Covered rs w x = (skip_loop-Skips rs w).left_out x

-- What is left of the window is its last part, at the right place of the buffer.
pub skip_loop-ShiftsTo : (rs : List Range) (w : Window) → ShiftsTo w (skip_loop rs w).1
skip_loop-ShiftsTo rs w = (skip_loop-Skips rs w).shifts

-- The loop frees only ranges that end before the window.
pub skip_loop_keeps :
    (rs : List Range) (w : Window) (x : ℕ)
    → w.filepos ≤ x
    → Covered rs x
    → Covered (skip_loop rs w).0 x
skip_loop_keeps rs w = (skip_loop-Skips rs w).kept

-- The ranges after `x` took a slot of `rs` cover the same places, and those of `x`.
abbrev Fills : List Range → Range → ℕ → Option (List Range) → Type 0
Fills rs x y none = Unit
Fills rs x y (some rs') = Covered rs y ⊎ Within x.begin x.end y → Covered rs' y

take_slot-free :
    (r : Range) (rs : List Range) (x : Range) (y : ℕ)
    → r.begin ≡ none
    → Covered (r ∷ rs) y ⊎ Within x.begin x.end y
    → Covered (x ∷ rs) y
take_slot-free r rs x y e (inl (inl h)) = absurd (rw e at h)
take_slot-free r rs x y e (inl (inr h)) = inr h
take_slot-free r rs x y e (inr h) = inl h

take_slot-Fills :
    (r : Range) (rs : List Range) (x : Range) (y : ℕ) (b : Option ℕ)
    → r.begin ≡ b
    → Fills (r ∷ rs) x y (take_slot b x rs)
take_slot-Fills r rs x y (some b) e = tt
take_slot-Fills r rs x y none e = take_slot-free r rs x y e

Fills-cons :
    (r : Range) (rs rs' : List Range) (x : Range) (y : ℕ)
    → Fills rs x y (some rs')
    → Fills (r ∷ rs) x y (some (r ∷ rs'))
Fills-cons r rs rs' x y f (inl (inl h)) = inl h
Fills-cons r rs rs' x y f (inl (inr h)) = inr (f (inl h))
Fills-cons r rs rs' x y f (inr h) = inr (f (inr h))

fill_last-Fills : (rs : List Range) (x : Range) (y : ℕ) → Fills rs x y (fill_last rs x)
unfolding fill_last
fill_last-Fills [] x y = tt
fill_last-Fills (r ∷ rs) x y = elim (Option-cases (fill_last rs x)) [
  | inl e ↦ rw (e, Fills, fill_last) (take_slot-Fills r rs x y r.begin refl)
  | inr (rs', e) ↦
      rw (e, Fills, fill_last) (Fills-cons r rs rs' x y (rw e at (fill_last-Fills rs x y)))
]

-- A new range takes no slot of a live one: what was covered stays covered, and the new range is too.
pub add_range-Covered :
    (rs : List Range) (x : Range) (y : ℕ)
    → Covered rs y ⊎ Within x.begin x.end y
    → Covered (add_range rs x) y
unfolding add_range
add_range-Covered rs x y c = elim (Option-cases (fill_last rs x)) [
  | inr (rs', e) ↦ rw (e, Any) (rw e at (fill_last-Fills rs x y) c)
  | inl e ↦
      rw (e, Any)
        (elim c [
          | inl h ↦ Any-append_left (λ r. Within r.begin r.end y) rs (x ∷ []) h
          | inr h ↦ Any-append_right (λ r. Within r.begin r.end y) rs (x ∷ []) (inl h)
        ])
]

pub in_skip_range-Covered : (rs : List Range) (y : ℕ) → in_skip_range rs y ≡ true → Covered rs y
unfolding in_skip_range
in_skip_range-Covered [] y e = absurd (cc)
in_skip_range-Covered (r ∷ rs) y e = ground (arith, in_skip_range-Covered rs y)
