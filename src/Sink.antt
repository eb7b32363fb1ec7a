-- ===== src/Sink.antt =====
-- The file descriptor that a program writes to, as POSIX describes a blocking `write`, and `write_all`
-- of tools/textextract.c on it.
use mathlib.Core.List.{append-nil, append_assoc}
use magicrescue.Base.{
  ℕ, zero, suc, ◌+◌, ◌≤◌, ◌<◌, ◌≡◌, ◌≢◌, refl, sym, ap, ◌∙◌, Option, none, some, List, [], ◌∷◌,
  ◌++◌, length, take, drop, arith, length-drop, take-append-drop,
}

take-nil : (j : ℕ) → take {A = ℕ} j [] ≡ []
take-nil zero = refl
take-nil (suc j) = refl

take-add : (n j : ℕ) (bs : List ℕ) → take n bs ++ take j (drop n bs) ≡ take (n + j) bs
take-add zero j bs = let e : 0 + j ≡ j = omega arith in rw (e) refl
take-add (suc n) j [] = take-nil j ∙ sym (take-nil (suc n + j))
take-add (suc n) j (b ∷ bs) =
    let e : suc n + j ≡ suc (n + j) = omega arith in rw (e) (ap (λ t. b ∷ t) (take-add n j bs))

take-length : (bs : List ℕ) → take (length bs) bs ≡ bs
take-length [] = refl
take-length (b ∷ bs) = ap (λ t. b ∷ t) (take-length bs)

pub record Sink (V : Type 0) : Type 0 where
  pub written : V → List ℕ
  pub write : List ℕ → V → Option ℕ × V
  pub write_count : (bs : List ℕ) (v : V) (n : ℕ) → (write bs v).0 ≡ some n → n ≤ length bs
  pub write_some : (bs : List ℕ) (v : V) (n : ℕ) → 0 < length bs → (write bs v).0 ≡ some n → 0 < n
  pub write_bytes :
      (bs : List ℕ) (v : V) (n : ℕ)
      → (write bs v).0 ≡ some n
      → written (write bs v).1 ≡ written v ++ take n bs
  pub write_fails :
      (bs : List ℕ) (v : V) → (write bs v).0 ≡ none → written (write bs v).1 ≡ written v

pub data Wrote : Type 0 where
  wrote write_failed no_fuel : Wrote

module _ {V : Type 0} (sink : Sink V) where
  abbrev after_write : (List ℕ → V → Wrote × V) → List ℕ → Option ℕ × V → Wrote × V
  after_write next bs (none, v) = (write_failed, v)
  after_write next bs (some n, v) = next (drop n bs) v

  -- The `while` loop of `write_all` on what is left, on fuel.
  unfoldable pub write_loop : ℕ → List ℕ → V → Wrote × V
  write_loop fuel [] v = (wrote, v)
  write_loop zero (b ∷ bs) v = (no_fuel, v)
  write_loop (suc fuel) (b ∷ bs) v = after_write (write_loop fuel) (b ∷ bs) (sink.write (b ∷ bs) v)

  unfoldable pub write_all : List ℕ → V → Wrote × V
  unfolding write_loop
  write_all bs v = write_loop (length bs) bs v

  -- All of the bytes are written, or some of them and the write failed.
  abbrev pub IsWritten : List ℕ → V → Wrote × V → Type 0
  IsWritten bs v (wrote, v') = sink.written v' ≡ sink.written v ++ bs
  IsWritten bs v (write_failed, v') =
      (k : ℕ) × (k ≤ length bs) × (sink.written v' ≡ sink.written v ++ take k bs)
  IsWritten bs v (no_fuel, v') = ⊥

  -- A loop that writes what a first write has left has written all.
  IsWritten-after :
      (n : ℕ) (bs : List ℕ) (v v' : V) (p : Wrote × V)
      → n ≤ length bs
      → sink.written v' ≡ sink.written v ++ take n bs
      → IsWritten (drop n bs) v' p
      → IsWritten bs v p
  IsWritten-after n bs v v' (wrote, u) h e k =
      k
      ∙ ap (λ t. t ++ drop n bs) e
      ∙ append_assoc (sink.written v) (take n bs) (drop n bs)
      ∙ ap (λ t. sink.written v ++ t) (take-append-drop n bs)
  IsWritten-after n bs v v' (write_failed, u) h e (j, le, k) = (
    n + j,
    omega (arith, length-drop n bs),
    k
        ∙ ap (λ t. t ++ take j (drop n bs)) e
        ∙ append_assoc (sink.written v) (take n bs) (take j (drop n bs))
        ∙ ap (λ t. sink.written v ++ t) (take-add n j bs),
  )
  IsWritten-after n bs v v' (no_fuel, u) h e k = k

  write_loop-IsWritten :
      (fuel : ℕ) (bs : List ℕ) (v : V) → length bs ≤ fuel → IsWritten bs v (write_loop fuel bs v)
  unfolding write_loop
  write_loop-IsWritten fuel [] v h = sym (append-nil (sink.written v))
  write_loop-IsWritten zero (b ∷ bs) v h = absurd (omega arith)
  write_loop-IsWritten (suc fuel) (b ∷ bs) v h =
      go (λ n v' le. write_loop-IsWritten fuel (drop n (b ∷ bs)) v' le) (sink.write (b ∷ bs) v) refl
    where
      go :
          ((n : ℕ) (v' : V)
            → length (drop n (b ∷ bs)) ≤ fuel
            → IsWritten (drop n (b ∷ bs)) v' (write_loop fuel (drop n (b ∷ bs)) v'))
          → (p : Option ℕ × V) → sink.write (b ∷ bs) v ≡ p
          → IsWritten (b ∷ bs) v (after_write (write_loop fuel) (b ∷ bs) p)
      go rest (none, v') e = (
        0,
        omega arith,
        ap (λ p. sink.written p.1) (sym e)
            ∙ sink.write_fails (b ∷ bs) v (ap (λ p. p.0) e)
            ∙ sym (append-nil (sink.written v)),
      )
      go rest (some n, v') e =
          let some_n = ap (λ p. p.0) e in
          let pos = sink.write_some (b ∷ bs) v n (omega arith) some_n in
          let le = sink.write_count (b ∷ bs) v n some_n in
          IsWritten-after n (b ∷ bs) v v' (write_loop fuel (drop n (b ∷ bs)) v') le
            (ap (λ p. sink.written p.1) (sym e) ∙ sink.write_bytes (b ∷ bs) v n some_n)
            (rest n v' (omega (arith, length-drop n (b ∷ bs))))

  -- `write_all` ends, and if it does not report an error, all of the bytes are written, after what was
  -- written before; after an error the first of them are.
  pub write_all-IsWritten : (bs : List ℕ) (v : V) → IsWritten bs v (write_all bs v)
  unfolding write_all
  write_all-IsWritten bs v = write_loop-IsWritten (length bs) bs v (omega arith)

  module _ (reliable : (bs : List ℕ) (v : V) → (sink.write bs v).0 ≢ none) where
    after_write-reliable :
        (next : List ℕ → V → Wrote × V) (bs : List ℕ) (v : V) (p : Option ℕ × V)
        → sink.write bs v ≡ p
        → ((cs : List ℕ) (u : V) → (next cs u).0 ≢ write_failed)
        → (after_write next bs p).0 ≢ write_failed
    after_write-reliable next bs v (none, u) e h = absurd (reliable bs v (ap (λ p. p.0) e))
    after_write-reliable next bs v (some n, u) e h = h (drop n bs) u

    write_loop-reliable : (fuel : ℕ) (bs : List ℕ) (v : V) → (write_loop fuel bs v).0 ≢ write_failed
    unfolding write_loop
    write_loop-reliable fuel [] v = λ e. cc
    write_loop-reliable zero (b ∷ bs) v = λ e. cc
    write_loop-reliable (suc fuel) (b ∷ bs) v =
        after_write-reliable (write_loop fuel) (b ∷ bs) v (sink.write (b ∷ bs) v) refl
          (λ cs u. write_loop-reliable fuel cs u)

    IsWritten-reliable :
        (bs : List ℕ) (v : V) (p : Wrote × V)
        → p.0 ≢ write_failed
        → IsWritten bs v p
        → sink.written p.1 ≡ sink.written v ++ bs
    IsWritten-reliable bs v (wrote, u) ne h = h
    IsWritten-reliable bs v (write_failed, u) ne h = absurd (ne refl)
    IsWritten-reliable bs v (no_fuel, u) ne h = absurd h

    pub write_all-reliable :
        (bs : List ℕ) (v : V) → sink.written (write_all bs v).1 ≡ sink.written v ++ bs
    unfolding write_all
    write_all-reliable bs v =
        IsWritten-reliable bs v (write_all bs v) (write_loop-reliable (length bs) bs v)
          (write_all-IsWritten bs v)

  -- Whatever becomes of a `write_all`, the first of the bytes are written.
  pub write_all_some :
      (bs : List ℕ) (v : V)
      → (k : ℕ) × (k ≤ length bs) × (sink.written (write_all bs v).1 ≡ sink.written v ++ take k bs)
  write_all_some bs v = go (write_all bs v) (write_all-IsWritten bs v)
    where
      go :
          (p : Wrote × V)
          → IsWritten bs v p
          → (k : ℕ) × (k ≤ length bs) × (sink.written p.1 ≡ sink.written v ++ take k bs)
      go (wrote, u) h =
          (length bs, omega arith, h ∙ ap (λ t. sink.written v ++ t) (sym (take-length bs)))
      go (write_failed, u) h = h
      go (no_fuel, u) h = absurd h
