-- ===== src/Array/Chunks.antt =====
-- A block of bytes cut into elements of one size.
use native.Mathlib.Nat.{suc-mul}
use magicrescue.Base.{
  ℕ, zero, suc, ◌+◌, ◌*◌, ◌≤◌, ◌<◌, ◌≡◌, refl, sym, ap, ◌∙◌, some, List, [], ◌∷◌, ◌++◌, get_elem?,
  length, take, drop, length-drop, arith,
}

pub take_append : (xs ys : List ℕ) (n : ℕ) → n ≤ length xs → take n (xs ++ ys) ≡ take n xs
take_append xs ys zero h = refl
take_append [] ys (suc n) h = absurd (omega arith)
take_append (x ∷ xs) ys (suc n) h = ap (λ t. x ∷ t) (take_append xs ys n (omega arith))

pub drop_append : (xs ys : List ℕ) (n : ℕ) → n ≤ length xs → drop n (xs ++ ys) ≡ drop n xs ++ ys
drop_append xs ys zero h = refl
drop_append [] ys (suc n) h = absurd (omega arith)
drop_append (x ∷ xs) ys (suc n) h = drop_append xs ys n (omega arith)

pub drop_nil : (n : ℕ) → drop {A = ℕ} n [] ≡ []
drop_nil zero = refl
drop_nil (suc n) = refl

pub drop-drop : (xs : List ℕ) (n m : ℕ) → drop m (drop n xs) ≡ drop (n + m) xs
drop-drop xs zero m = let e : 0 + m ≡ m = omega arith in rw (e) refl
drop-drop [] (suc n) m = drop_nil m ∙ sym (drop_nil (suc n + m))
drop-drop (x ∷ xs) (suc n) m =
    let e : suc n + m ≡ suc (n + m) = omega arith in rw (e) (drop-drop xs n m)

pub take-length : (xs : List ℕ) → take (length xs) xs ≡ xs
take-length [] = refl
take-length (x ∷ xs) = ap (λ t. x ∷ t) (take-length xs)

pub drop_all : (xs : List ℕ) (n : ℕ) → length xs ≤ n → drop n xs ≡ []
drop_all [] zero h = refl
drop_all [] (suc n) h = refl
drop_all (x ∷ xs) zero h = absurd (omega arith)
drop_all (x ∷ xs) (suc n) h = drop_all xs n (omega arith)

pub empty : (xs : List ℕ) → length xs ≡ 0 → xs ≡ []
empty [] h = refl
empty (x ∷ xs) h = absurd (omega arith)

-- A block cut into elements.
abbrev pub chunks : ℕ → ℕ → List ℕ → List (List ℕ)
chunks k zero block = []
chunks k (suc n) block = take k block ∷ chunks k n (drop k block)

pub chunks-append :
    (k n : ℕ) (block x : List ℕ)
    → length block ≡ n * k
    → length x ≡ k
    → chunks k (suc n) (block ++ x) ≡ chunks k n block ++ (x ∷ [])
chunks-append k zero block x h e =
    let z : 0 * k ≡ 0 = omega arith in
    rw (empty block (h ∙ z)) (ap (λ t. t ∷ []) (ap (λ n. take n x) (sym e) ∙ take-length x))
chunks-append k (suc n) block x h e =
    let m = suc-mul n k in
    let le : k ≤ length block = omega arith in
    rw (take_append block x k le, drop_append block x k le)
      (ap (λ t. take k block ∷ t)
        (chunks-append k n (drop k block) x (omega (arith, length-drop k block)) e))

pub get_elem?-chunks :
    (k n : ℕ) (block : List ℕ) (i : ℕ)
    → i < n
    → get_elem? (chunks k n block) i ≡ some (take k (drop (i * k) block))
get_elem?-chunks k zero block i h = absurd (omega arith)
get_elem?-chunks k (suc n) block zero h = let z : 0 * k ≡ 0 = omega arith in rw (z) refl
get_elem?-chunks k (suc n) block (suc i) h =
    let m : k + i * k ≡ suc i * k = omega (arith, suc-mul i k) in
    get_elem?-chunks k n (drop k block) i (omega arith)
    ∙ ap (λ t. some (take k t)) (drop-drop block k (i * k) ∙ ap (λ p. drop p block) m)
