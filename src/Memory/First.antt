-- ===== src/Memory/First.antt =====
-- The first place in a range that passes a test, and the searches of the C library.
use magicrescue.Base.{
  ℕ, zero, suc, ◌+◌, ◌≡◌, ◌≤◌, ◌<◌, Bool, true, false, Option, none, some, List, [], ◌∷◌, ◌==◌,
  length, get_elem?, arith, inl, inr, Bool-cases, refl,
}
use magicrescue.Memory.{Memory, memchr, holds, Agree}

abbrev pub Misses : (ℕ → Bool) → ℕ → ℕ → Type 0
Misses test lo hi = (i : ℕ) → lo ≤ i → i < hi → test i ≡ false

-- `First test lo hi o`: `o` is the least place from `lo` below `hi` that passes the test, or
-- `none` if no place does.
abbrev pub First : (ℕ → Bool) → ℕ → ℕ → Option ℕ → Type 0
First test lo hi none = Misses test lo hi
First test lo hi (some r) = (lo ≤ r) × (r < hi) × (test r ≡ true) × Misses test lo r

pub Misses-join :
    {test : ℕ → Bool} (lo mid hi : ℕ) → Misses test lo mid → Misses test mid hi → Misses test lo hi
Misses-join lo mid hi h k i p q = ground (arith, h i p, k i)

pub First-extend :
    {test : ℕ → Bool} (lo mid hi : ℕ) (o : Option ℕ)
    → lo ≤ mid
    → Misses test lo mid
    → First test mid hi o
    → First test lo hi o
First-extend lo mid hi none le h f = Misses-join lo mid hi h f
First-extend lo mid hi (some r) le h f = (omega arith, f.1, f.2, Misses-join lo mid r h f.3)

pub Misses-one : (test : ℕ → Bool) (p : ℕ) → test p ≡ false → Misses test p (p + 1)
Misses-one test p h i lo hi = let e : i ≡ p = omega arith in rw e h

pub memchr-First : (mem : Memory) (p c n : ℕ) → First (λ i. mem i == c) p (p + n) (memchr mem p c n)
unfolding memchr
memchr-First mem p c zero = λ i lo hi. absurd (omega arith)
memchr-First mem p c (suc n) = elim (Bool-cases (mem p == c)) [
  | inl hit ↦ rw hit (omega arith, omega arith, hit, λ i lo hi. absurd (omega arith))
  | inr miss ↦ rw miss (
      let e : p + suc n ≡ p + 1 + n = omega arith in
      rw e (
        First-extend {test = λ i. mem i == c} p (p + 1) (p + 1 + n) (memchr mem (p + 1) c n)
          (omega arith) (Misses-one (λ i. mem i == c) p miss) (memchr-First mem (p + 1) c n)))
]

-- Where a string stands, each of its bytes stands.
pub holds-elem :
    (mem : Memory) (p : ℕ) (s : List ℕ) (k c : ℕ)
    → holds mem p s ≡ true
    → get_elem? s k ≡ some c
    → mem (p + k) ≡ c
unfolding holds
holds-elem mem p [] k c h e = cc
holds-elem mem p (x ∷ s) zero c h e = let z : p + 0 ≡ p = omega arith in rw z (ground arith)
holds-elem mem p (x ∷ s) (suc k) c h e =
    let z : p + suc k ≡ p + 1 + k = omega arith in
    rw z (holds-elem mem (p + 1) s k c (ground arith) e)

-- A comparison reads the bytes under the string, and no others.
pub holds-Agree :
    (m m' : Memory) (p : ℕ) (s : List ℕ) → Agree m m' p (p + length s) → holds m p s ≡ holds m' p s
unfolding holds
holds-Agree m m' p [] h = refl
holds-Agree m m' p (x ∷ s) h = rw (
  h p (omega arith) (omega arith),
  holds-Agree m m' (p + 1) s (λ i lo hi. h i (omega arith) (omega arith)),
)
