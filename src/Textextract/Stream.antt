-- ===== src/Textextract/Stream.antt =====
-- The characters of tools/textextract.c inspected in a buffer, and inspected in the file as a whole.
use magicrescue.Base.{
  ℕ, suc, ◌+◌, ◌≤◌, ◌<◌, ◌≡◌, refl, ap, Bool, true, false, Option, none, some, List, [], ◌∷◌, ◌++◌,
  length, arith, if◌then◌else◌, Bool-cases, inl, inr,
}
use magicrescue.Textextract.{
  Options, Direction, Entry, Counters, Scores, is_positive, count_char, inspect_char, inspect_all,
  unless_stop,
}

-- The last letter of the buffer, and that of the file, whose first `f` bytes are no more in the
-- buffer. After a flush the buffer has forgotten the letter with which it starts.
abbrev pub LastAt : ℕ → Option ℕ → Option ℕ → Type 0
LastAt f (some q) (some e) = e ≡ f + q
LastAt f (some q) none = ⊥
LastAt f none (some e) = (0 < f) × (e ≡ f)
LastAt f none none = f ≡ 0

abbrev pub Related : ℕ → Scores × Bool → Scores × Bool → Type 0
Related f (s, b) (u, b') =
    (b ≡ b') × (s.counters ≡ u.counters) × LastAt f s.last_letter u.last_letter

abbrev pub Below : Option ℕ → ℕ → Type 0
Below none n = Unit
Below (some q) n = q < n

abbrev pub scores : Option ℕ → Counters → Scores
scores l k = record { last_letter = l; counters = k }

LastAt-char :
    (b : Bool) (f p : ℕ) (l l' : Option ℕ)
    → LastAt f l l'
    → LastAt f (if b then l else some p) (if b then l' else some (f + p))
LastAt-char true f p l l' h = h
LastAt-char false f p l l' h = refl

Below-char : (b : Bool) (p : ℕ) (l : Option ℕ) → Below l p → Below (if b then l else some p) (p + 1)
Below-char true p none h = tt
Below-char true p (some q) h = omega arith
Below-char false p l h = omega arith

pub Below-mono : (m n : ℕ) (l : Option ℕ) → m ≤ n → Below l m → Below l n
Below-mono m n none h b = tt
Below-mono m n (some q) h b = omega arith

module _ (opt : Options) (dir : Direction) (lut : ℕ → Entry) where
  pub inspect_all-Related :
      (f p : ℕ) (l l' : Option ℕ) (k : Counters) (cs : List ℕ)
      → LastAt f l l'
      → Related f
          (inspect_all opt dir lut (scores l k) p cs)
          (inspect_all opt dir lut (scores l' k) (f + p) cs)
  unfolding inspect_all inspect_char
  inspect_all-Related f p l l' k [] h = (refl, refl, h)
  inspect_all-Related f p l l' k (c ∷ cs) h =
      let b = is_positive (lut c).score in
      let next = LastAt-char b f p l l' h in
      elim (Bool-cases (count_char opt dir lut k c).1) [
        | inl stop ↦ rw (stop, unless_stop) (refl, refl, next)
        | inr go ↦
            rw (go, unless_stop)
              (let e : f + p + 1 ≡ f + (p + 1) = omega arith in
                rw (e) (
                  inspect_all-Related f (p + 1) (if b then l else some p)
                    (if b then l' else some (f + p)) (count_char opt dir lut k c).0 cs next))
      ]

  pub inspect_all-Below :
      (p : ℕ) (l : Option ℕ) (k : Counters) (cs : List ℕ)
      → Below l p
      → Below (inspect_all opt dir lut (scores l k) p cs).0.last_letter (p + length cs)
  unfolding inspect_all inspect_char
  inspect_all-Below p l k [] h = Below-mono p (p + 0) l (omega arith) h
  inspect_all-Below p l k (c ∷ cs) h =
      let b = is_positive (lut c).score in
      let l' = if b then l else some p in
      let next = Below-char b p l h in
      elim (Bool-cases (count_char opt dir lut k c).1) [
        | inl stop ↦
            rw (stop, unless_stop) (Below-mono (p + 1) (p + suc (length cs)) l' (omega arith) next)
        | inr go ↦
            rw (go, unless_stop)
              (let e : p + suc (length cs) ≡ p + 1 + length cs = omega arith in
                rw (e) (inspect_all-Below (p + 1) l' (count_char opt dir lut k c).0 cs next))
      ]

  -- Where a loop goes on to its end, a longer one goes on too.
  unless_stop-later :
      (next next' : Scores → Scores × Bool) (u : Scores) (r p : Scores × Bool)
      → ((s' : Scores) → next s' ≡ (u, false) → next' s' ≡ r)
      → unless_stop opt dir lut next p ≡ (u, false)
      → unless_stop opt dir lut next' p ≡ r
  unless_stop-later next next' u r (s, true) k h = absurd (cc)
  unless_stop-later next next' u r (s, false) k h = k s h

  pub inspect_all-append :
      (s u : Scores) (p : ℕ) (xs ys : List ℕ)
      → inspect_all opt dir lut s p xs ≡ (u, false)
      → inspect_all opt dir lut s p (xs ++ ys) ≡ inspect_all opt dir lut u (p + length xs) ys
  unfolding inspect_all
  inspect_all-append s u p [] ys h =
      let z : p + 0 ≡ p = omega arith in
      rw (z) (ap (λ t. inspect_all opt dir lut t p ys) (ap (λ r. r.0) h))
  inspect_all-append s u p (x ∷ xs) ys h =
      unless_stop-later (λ s'. inspect_all opt dir lut s' (p + 1) xs)
        (λ s'. inspect_all opt dir lut s' (p + 1) (xs ++ ys)) u
        (inspect_all opt dir lut u (p + suc (length xs)) ys) (inspect_char opt dir lut s p x)
        (λ s' e.
          let z : p + suc (length xs) ≡ p + 1 + length xs = omega arith in
          rw (z) (inspect_all-append s' u (p + 1) xs ys e))
        h
