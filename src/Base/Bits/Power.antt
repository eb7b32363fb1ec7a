-- ===== src/Base/Bits/Power.antt =====
-- Numbers with one bit.
use Prim.Native.Nat.{ℕ, zero, suc, ◌-◌, ◌/◌, ◌%◌, ◌^◌, ◌≤◌, ◌<◌, bit_and}
use mathlib.Core.Path.{◌≡◌, refl, ap, ◌∙◌}
use mathlib.Core.Logic.{◌⊎◌, inl, inr}
use native.Mathlib.Omega.{arith}
use native.Mathlib.Nat.{pow-suc}
use magicrescue.Base.Bits.Step.{bit_and_low}

bit_and_self : (n a : ℕ) → a ≤ n → bit_and a a ≡ a
bit_and_self zero a h = let z : a ≡ 0 = omega arith in rw (z) refl
bit_and_self (suc n) a h = omega (arith, bit_and_low a a, bit_and_self n (a / 2) (omega arith))

parity_of : (r : ℕ) → r < 2 → (r ≡ 0) ⊎ (r ≡ 1)
parity_of zero h = inl refl
parity_of (suc zero) h = inr refl
parity_of (suc (suc r)) h = absurd (omega arith)

double : (b k : ℕ) → b % 2 ≡ 0 → b / 2 ≡ 2 ^ k → b ≡ 2 ^ suc k
double b k even p = omega (arith, pow-suc 2 k)

power_below : (n b : ℕ) → b ≤ n → 0 < b → bit_and b (b - 1) ≡ 0 → (k : ℕ) × (b ≡ 2 ^ k)
power_below zero b h pos e = absurd (omega arith)
power_below (suc n) b h pos e = elim (parity_of (b % 2) (omega arith)) [
  | inl even ↦
      let half : (b - 1) / 2 ≡ b / 2 - 1 = omega arith in
      let low = bit_and_low b (b - 1) in
      let same = ap (λ (t : ℕ). bit_and (b / 2) t) half in
      let (k, p) = power_below n (b / 2) (omega arith) (omega arith) (omega arith) in
      (suc k, double b k even p)
  | inr odd ↦
      let half : (b - 1) / 2 ≡ b / 2 = omega arith in
      let low = bit_and_low b (b - 1) in
      let same = ap (λ (t : ℕ). bit_and (b / 2) t) half in
      let self = bit_and_self (b / 2) (b / 2) (omega arith) in
      let one : b ≡ 1 = omega arith in (0, one ∙ refl)
]

-- A number above 0 has one bit only if the one below it has none of its bits.
pub bit_and_pred-power : (b : ℕ) → 0 < b → bit_and b (b - 1) ≡ 0 → (k : ℕ) × (b ≡ 2 ^ k)
bit_and_pred-power b pos e = power_below b b (omega arith) pos e
