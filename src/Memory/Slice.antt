-- ===== src/Memory/Slice.antt =====
-- The bytes of an address space from one address on, as a list.
use magicrescue.Base.{
  ℕ, zero, suc, ◌+◌, ◌-◌, ◌≤◌, ◌<◌, ◌≡◌, refl, ap, ◌∙◌, List, [], ◌∷◌, ◌++◌, length, get_or, take,
  drop, arith,
}

unfoldable pub bytes_from : (ℕ → ℕ) → ℕ → ℕ → List ℕ
bytes_from f p zero = []
bytes_from f p (suc n) = f p ∷ bytes_from f (p + 1) n

module _ (f : ℕ → ℕ) where
  pub length-bytes_from : (p n : ℕ) → length (bytes_from f p n) ≡ n
  unfolding bytes_from
  length-bytes_from p zero = refl
  length-bytes_from p (suc n) = omega (arith, length-bytes_from (p + 1) n)

  pub get_or-bytes_from : (p n i : ℕ) → i < n → get_or (bytes_from f p n) i 0 ≡ f (p + i)
  unfolding bytes_from
  get_or-bytes_from p zero i h = absurd (omega arith)
  get_or-bytes_from p (suc n) zero h = ap f (omega arith)
  get_or-bytes_from p (suc n) (suc i) h =
      let e : p + 1 + i ≡ p + suc i = omega arith in
      get_or-bytes_from (p + 1) n i (omega arith) ∙ ap f e

  pub bytes_from_append :
      (p n m : ℕ) → bytes_from f p n ++ bytes_from f (p + n) m ≡ bytes_from f p (n + m)
  unfolding bytes_from
  bytes_from_append p zero m =
      let e : p + 0 ≡ p = omega arith in let z : 0 + m ≡ m = omega arith in rw (e, z) refl
  bytes_from_append p (suc n) m =
      let e : p + suc n ≡ p + 1 + n = omega arith in
      let s : suc n + m ≡ suc (n + m) = omega arith in
      rw (e, s) (ap (λ t. f p ∷ t) (bytes_from_append (p + 1) n m))

  pub take-bytes_from : (p q n : ℕ) → q ≤ n → take q (bytes_from f p n) ≡ bytes_from f p q
  unfolding bytes_from
  take-bytes_from p zero n h = refl
  take-bytes_from p (suc q) zero h = absurd (omega arith)
  take-bytes_from p (suc q) (suc n) h =
      ap (λ t. f p ∷ t) (take-bytes_from (p + 1) q n (omega arith))

  pub drop-bytes_from :
      (p q n : ℕ) → q ≤ n → drop q (bytes_from f p n) ≡ bytes_from f (p + q) (n - q)
  unfolding bytes_from
  drop-bytes_from p zero n h =
      let e : p + 0 ≡ p = omega arith in let z : n - 0 ≡ n = omega arith in rw (e, z) refl
  drop-bytes_from p (suc q) zero h = absurd (omega arith)
  drop-bytes_from p (suc q) (suc n) h =
      let e : p + suc q ≡ p + 1 + q = omega arith in
      let z : suc n - suc q ≡ n - q = omega arith in
      rw (e, z) (drop-bytes_from (p + 1) q n (omega arith))

  -- A list whose elements are those of the address space.
  pub eq-bytes_from :
      (p : ℕ) (bs : List ℕ)
      → ((i : ℕ) → i < length bs → get_or bs i 0 ≡ f (p + i))
      → bs ≡ bytes_from f p (length bs)
  unfolding bytes_from
  eq-bytes_from p [] h = refl
  eq-bytes_from p (b ∷ bs) h =
      let z : p + 0 ≡ p = omega arith in
      ap (λ t. t ∷ bs) (h 0 (omega arith) ∙ ap f z)
      ∙ ap (λ t. f p ∷ t)
          (eq-bytes_from (p + 1) bs (λ i lt.
            let e : p + suc i ≡ p + 1 + i = omega arith in h (suc i) (omega arith) ∙ ap f e))
