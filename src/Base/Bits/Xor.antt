-- ===== src/Base/Bits/Xor.antt =====
-- The algebra of exclusive or, and exclusive or of two fields.
use Prim.Native.Nat.{ℕ, zero, suc, ◌+◌, ◌*◌, ◌/◌, ◌%◌, ◌^◌, ◌≤◌, ◌<◌, bit_xor}
use mathlib.Core.Path.{◌≡◌, refl, ◌∙◌, ap}
use native.Mathlib.Omega.{arith}
use native.Mathlib.Nat.{pow-suc}
use magicrescue.Base.Bits.Step.{bit_xor_low}

bit_xor-half : (a b : ℕ) → bit_xor a b / 2 ≡ bit_xor (a / 2) (b / 2)
bit_xor-half a b = omega (arith, bit_xor_low a b)

bit_xor-parity : (a b : ℕ) → bit_xor a b % 2 ≡ (a + b) % 2
bit_xor-parity a b = omega (arith, bit_xor_low a b)

bit_xor_comm_below : (n a b : ℕ) → a ≤ n → b ≤ n → bit_xor a b ≡ bit_xor b a
bit_xor_comm_below zero zero zero ha hb = refl
bit_xor_comm_below zero (suc a) b ha hb = absurd (omega arith)
bit_xor_comm_below zero zero (suc b) ha hb = absurd (omega arith)
bit_xor_comm_below (suc n) a b ha hb = omega (
  arith,
  bit_xor_low a b,
  bit_xor_low b a,
  bit_xor_comm_below n (a / 2) (b / 2) (omega arith) (omega arith),
)

pub bit_xor_comm : (a b : ℕ) → bit_xor a b ≡ bit_xor b a
bit_xor_comm a b = bit_xor_comm_below (a + b) a b (omega arith) (omega arith)

bit_xor_assoc_below :
    (n a b c : ℕ) → a ≤ n → b ≤ n → c ≤ n → bit_xor (bit_xor a b) c ≡ bit_xor a (bit_xor b c)
bit_xor_assoc_below zero zero zero zero ha hb hc = refl
bit_xor_assoc_below zero (suc a) b c ha hb hc = absurd (omega arith)
bit_xor_assoc_below zero zero (suc b) c ha hb hc = absurd (omega arith)
bit_xor_assoc_below zero zero zero (suc c) ha hb hc = absurd (omega arith)
bit_xor_assoc_below (suc n) a b c ha hb hc = omega (
  arith,
  bit_xor_low (bit_xor a b) c,
  bit_xor_low a (bit_xor b c),
  bit_xor-parity a b,
  bit_xor-parity b c,
  ap (λ (t : ℕ). bit_xor t (c / 2)) (bit_xor-half a b),
  ap (λ (t : ℕ). bit_xor (a / 2) t) (bit_xor-half b c),
  bit_xor_assoc_below n (a / 2) (b / 2) (c / 2) (omega arith) (omega arith) (omega arith),
)

pub bit_xor_assoc : (a b c : ℕ) → bit_xor (bit_xor a b) c ≡ bit_xor a (bit_xor b c)
bit_xor_assoc a b c =
    bit_xor_assoc_below (a + b + c) a b c (omega arith) (omega arith) (omega arith)

pub bit_xor-zero_left : (a : ℕ) → bit_xor 0 a ≡ a
bit_xor-zero_left a = go a a (omega arith)
  where
    go : (n a : ℕ) → a ≤ n → bit_xor 0 a ≡ a
    go zero zero h = refl
    go zero (suc a) h = absurd (omega arith)
    go (suc n) a h = omega (arith, bit_xor_low 0 a, go n (a / 2) (omega arith))

pub bit_xor-zero_right : (a : ℕ) → bit_xor a 0 ≡ a
bit_xor-zero_right a = bit_xor_comm a 0 ∙ bit_xor-zero_left a

one : (a : ℕ) → a * 1 + 0 ≡ a
one a = omega arith

double : (a k : ℕ) → a * 2 ^ suc k ≡ 2 * (a * 2 ^ k)
double a k = omega (arith, ap (λ (t : ℕ). a * t) (pow-suc 2 k))

half : (a x k : ℕ) → (a * 2 ^ suc k + x) / 2 ≡ a * 2 ^ k + x / 2
half a x k = omega (arith, double a k)

-- The high and the low digits are combined apart.
pub bit_xor_fields :
    (k a b x y : ℕ)
    → x < 2 ^ k
    → y < 2 ^ k
    → bit_xor (a * 2 ^ k + x) (b * 2 ^ k + y) ≡ bit_xor a b * 2 ^ k + bit_xor x y
bit_xor_fields zero a b zero zero hx hy =
    omega
      (arith, ap (λ (t : ℕ). bit_xor t (b * 1 + 0)) (one a), ap (λ (t : ℕ). bit_xor a t) (one b))
bit_xor_fields zero a b (suc x) y hx hy = absurd (omega arith)
bit_xor_fields zero a b zero (suc y) hx hy = absurd (omega arith)
bit_xor_fields (suc k) a b x y hx hy = omega (
  arith,
  bit_xor_low (a * 2 ^ suc k + x) (b * 2 ^ suc k + y),
  bit_xor_low x y,
  double a k,
  double b k,
  double (bit_xor a b) k,
  ap (λ (t : ℕ). bit_xor t ((b * 2 ^ suc k + y) / 2)) (half a x k),
  ap (λ (t : ℕ). bit_xor (a * 2 ^ k + x / 2) t) (half b y k),
  bit_xor_fields k a b (x / 2) (y / 2) (omega (arith, pow-suc 2 k)) (omega (arith, pow-suc 2 k)),
)
