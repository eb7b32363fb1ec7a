-- ===== src/Base/Bits/Step.antt =====
-- Each bit operation, read off at its lowest binary digit.
use Prim.Native.Nat.{
  ℕ, zero, suc, ◌+◌, ◌*◌, ◌/◌, ◌%◌, ◌≤◌, ◌<◌, min, max, digits, bitwise, differ, bit_and, bit_or,
  bit_xor, bit_and-bitwise, bit_or-bitwise, bit_xor-bitwise,
}
use mathlib.Core.Path.{◌≡◌, refl}
use native.Mathlib.Omega.{arith}

-- The fuel of the digit recursion does not matter, once it reaches the first number.
digits_enough :
    (rest : ℕ → ℕ) (op : ℕ → ℕ → ℕ) (a m n b : ℕ)
    → a ≤ m
    → a ≤ n
    → digits rest op m a b ≡ digits rest op n a b
digits_enough rest op zero zero zero b hm hn = refl
digits_enough rest op zero zero (suc n) b hm hn = refl
digits_enough rest op zero (suc m) zero b hm hn = refl
digits_enough rest op zero (suc m) (suc n) b hm hn = refl
digits_enough rest op (suc a) zero n b hm hn = absurd (omega arith)
digits_enough rest op (suc a) (suc m) zero b hm hn = absurd (omega arith)
digits_enough rest op (suc a) (suc m) (suc n) b hm hn =
    rw (digits_enough rest op (suc a / 2) m n (b / 2) (omega arith) (omega arith))

bitwise-low :
    (rest : ℕ → ℕ) (op : ℕ → ℕ → ℕ) (a b : ℕ)
    → bitwise rest op (suc a) b ≡ bitwise rest op (suc a / 2) (b / 2) * 2 + op (suc a % 2) (b % 2)
bitwise-low rest op a b =
    rw (digits_enough rest op (suc a / 2) a (suc a / 2) (b / 2) (omega arith) (omega arith))

pub bit_and_low : (a b : ℕ) → bit_and a b ≡ bit_and (a / 2) (b / 2) * 2 + min (a % 2) (b % 2)
bit_and_low zero b = simp bit_and-bitwise (omega arith)
bit_and_low (suc a) b = simp bit_and-bitwise (bitwise-low (λ y. zero) min a b)

pub bit_or_low : (a b : ℕ) → bit_or a b ≡ bit_or (a / 2) (b / 2) * 2 + max (a % 2) (b % 2)
bit_or_low zero b = simp bit_or-bitwise (omega arith)
bit_or_low (suc a) b = simp bit_or-bitwise (bitwise-low (λ y. y) max a b)

differ_bits : (x y : ℕ) → x < 2 → y < 2 → differ x y ≡ (x + y) % 2
differ_bits zero y hx hy = omega arith
differ_bits (suc zero) zero hx hy = refl
differ_bits (suc zero) (suc zero) hx hy = refl
differ_bits (suc zero) (suc (suc y)) hx hy = absurd (omega arith)
differ_bits (suc (suc x)) y hx hy = absurd (omega arith)

differ_digits : (a b : ℕ) → differ (a % 2) (b % 2) ≡ (a + b) % 2
differ_digits a b = omega (arith, differ_bits (a % 2) (b % 2) (omega arith) (omega arith))

pub bit_xor_low : (a b : ℕ) → bit_xor a b ≡ bit_xor (a / 2) (b / 2) * 2 + (a + b) % 2
bit_xor_low zero b = simp bit_xor-bitwise (omega arith)
bit_xor_low (suc a) b =
    simp bit_xor-bitwise (rw (bitwise-low (λ y. y) differ a b, differ_digits (suc a) b))
