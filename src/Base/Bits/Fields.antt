-- ===== src/Base/Bits/Fields.antt =====
-- Fields and masks of any width, from the lowest digit up.
use Prim.Native.Nat.{ℕ, zero, suc, ◌+◌, ◌-◌, ◌*◌, ◌/◌, ◌%◌, ◌^◌, ◌≤◌, ◌<◌, bit_and, bit_or, bit_xor}
use mathlib.Core.Path.{◌≡◌, refl, ◌∙◌, sym, ap}
use native.Mathlib.Omega.{arith}
use native.Mathlib.Nat.{
  pow-suc, one-le-pow, mod-eq_of_lt, mod-lt, div-add-mod, add-mod_right, mod-one,
}
use magicrescue.Base.Bits.Step.{bit_and_low, bit_or_low, bit_xor_low}

-- A quotient and a remainder below the divisor determine the remainder.
pub mod_unique : (q n m : ℕ) → m < n → (q * n + m) % n ≡ m
mod_unique zero n m h = rw (mod-eq_of_lt {n = zero * n + m} {m = n} (omega arith)) (omega arith)
mod_unique (suc q) n m h =
    let e : suc q * n + m ≡ (q * n + m) + n = omega arith in
    rw e (add-mod_right (q * n + m) n ∙ mod_unique q n m h)

two_pow_pos : (k : ℕ) → 0 < 2 ^ k
two_pow_pos k = one-le-pow k 2 (omega arith)

-- The lowest digit of a remainder by a power of two.
pub mod-pow_low : (x k : ℕ) → x % 2 ^ suc k ≡ x / 2 % 2 ^ k * 2 + x % 2
mod-pow_low x k =
    let q = x / 2 / 2 ^ k in
    let m = x / 2 % 2 ^ k in
    let e : x ≡ q * 2 ^ suc k + (m * 2 + x % 2) =
      omega (arith, ap (λ (t : ℕ). q * t) (pow-suc 2 k), div-add-mod (x / 2) (2 ^ k)) in
    ap (λ (t : ℕ). t % 2 ^ suc k) e
    ∙ mod_unique q (2 ^ suc k) (m * 2 + x % 2)
        (omega (arith, pow-suc 2 k, mod-lt (x / 2) (two_pow_pos k)))

pub bit_or-zero : (n a : ℕ) → a ≤ n → bit_or a 0 ≡ a
bit_or-zero n zero h = refl
bit_or-zero zero (suc a) h = absurd (omega arith)
bit_or-zero (suc n) (suc a) h =
    omega (arith, bit_or_low (suc a) 0, bit_or-zero n (suc a / 2) (omega arith))

pub bit_and-zero : (n a : ℕ) → a ≤ n → bit_and a 0 ≡ 0
bit_and-zero n zero h = refl
bit_and-zero zero (suc a) h = absurd (omega arith)
bit_and-zero (suc n) (suc a) h =
    omega (arith, bit_and_low (suc a) 0, bit_and-zero n (suc a / 2) (omega arith))

-- A field `r` of `k` bits below a shifted `q`: the disjunction is a sum.
pub bit_or_fields : (k q r : ℕ) → r < 2 ^ k → bit_or (q * 2 ^ k) r ≡ q * 2 ^ k + r
bit_or_fields zero q r h =
    let e : r ≡ 0 = omega arith in
    rw e (bit_or-zero (q * 2 ^ 0) (q * 2 ^ 0) (omega arith) ∙ omega arith)
bit_or_fields (suc k) q r h = omega (
  arith,
  bit_or_low (q * 2 ^ suc k) r,
  ap (λ (t : ℕ). q * t) (pow-suc 2 k),
  pow-suc 2 k,
  ap (λ (t : ℕ). bit_or t (r / 2)) (half k q),
  bit_or_fields k q (r / 2) (omega (arith, pow-suc 2 k)),
)
  where
    half : (k q : ℕ) → q * 2 ^ suc k / 2 ≡ q * 2 ^ k
    half k q = omega (arith, ap (λ (t : ℕ). q * t) (pow-suc 2 k))

-- A mask below `2 ^ k` sees the low `k` bits only.
pub bit_and_mod : (k a m : ℕ) → m < 2 ^ k → bit_and a m ≡ bit_and (a % 2 ^ k) m
bit_and_mod zero a m h =
    let e : m ≡ 0 = omega arith in
    rw e (bit_and-zero a a (omega arith) ∙ sym (bit_and-zero (a % 2 ^ 0) (a % 2 ^ 0) (omega arith)))
bit_and_mod (suc k) a m h = omega (
  arith,
  bit_and_low a m,
  bit_and_low (a % 2 ^ suc k) m,
  mod-pow_low a k,
  ap (λ (t : ℕ). bit_and t (m / 2)) (half k a),
  bit_and_mod k (a / 2) (m / 2) (omega (arith, pow-suc 2 k)),
)
  where
    half : (k a : ℕ) → a % 2 ^ suc k / 2 ≡ a / 2 % 2 ^ k
    half k a = omega (arith, mod-pow_low a k)

-- A mask of `k` ones is the remainder by `2 ^ k`.
pub bit_and_ones : (k a : ℕ) → bit_and a (2 ^ k - 1) ≡ a % 2 ^ k
bit_and_ones zero a = bit_and-zero a a (omega arith) ∙ sym (mod-one a)
bit_and_ones (suc k) a = omega (
  arith,
  bit_and_low a (2 ^ suc k - 1),
  ap (λ (t : ℕ). bit_and (a / 2) t) (half k),
  mod-pow_low a k,
  pow-suc 2 k,
  two_pow_pos k,
  bit_and_ones k (a / 2),
)
  where
    half : (k : ℕ) → (2 ^ suc k - 1) / 2 ≡ 2 ^ k - 1
    half k = omega (arith, pow-suc 2 k, two_pow_pos k)

-- The low `k` bits of an exclusive or.
pub bit_xor-mod : (k a b : ℕ) → bit_xor a b % 2 ^ k ≡ bit_xor (a % 2 ^ k) (b % 2 ^ k)
bit_xor-mod zero a b = rw (mod-one a, mod-one b) (mod-one (bit_xor a b))
bit_xor-mod (suc k) a b = omega (
  arith,
  bit_xor_low a b,
  bit_xor_low (a % 2 ^ suc k) (b % 2 ^ suc k),
  mod-pow_low a k,
  mod-pow_low b k,
  mod-pow_low (bit_xor a b) k,
  ap (λ (t : ℕ). t % 2 ^ k)
      (half (bit_xor a b) (bit_xor (a / 2) (b / 2)) ((a + b) % 2) (bit_xor_low a b) (omega arith)),
  bit_xor-mod k (a / 2) (b / 2),
  ap (λ (t : ℕ). bit_xor t (b % 2 ^ suc k / 2)) (low k a),
  ap (λ (t : ℕ). bit_xor (a / 2 % 2 ^ k) t) (low k b),
)
  where
    half : (x y d : ℕ) → x ≡ y * 2 + d → d < 2 → x / 2 ≡ y
    half x y d e h = omega arith

    low : (k x : ℕ) → x % 2 ^ suc k / 2 ≡ x / 2 % 2 ^ k
    low k x = omega (arith, mod-pow_low x k)

-- An exclusive or of two `k`-bit numbers has `k` bits.
pub bit_xor-lt : (k a b : ℕ) → a < 2 ^ k → b < 2 ^ k → bit_xor a b < 2 ^ k
bit_xor-lt k a b ha hb =
    let e : bit_xor a b % 2 ^ k ≡ bit_xor a b =
      bit_xor-mod k a b ∙ rw (mod-eq_of_lt ha, mod-eq_of_lt hb) in
    rw e at (mod-lt (bit_xor a b) (two_pow_pos k))
