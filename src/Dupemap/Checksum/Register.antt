-- ===== src/Dupemap/Checksum/Register.antt =====
-- The register of the polynomial division of src/dupemap.c's checksum, a byte at a time.
use native.Mathlib.Nat.{mod-eq_of_lt, one-le-pow, pow-suc, mul_assoc}
use mathlib.Core.Path.{subst}
use magicrescue.Base.{
  ℕ, zero, suc, ◌+◌, ◌*◌, ◌/◌, ◌%◌, ◌^◌, ◌<◌, bit_and, bit_xor, ◌≡◌, ap, sym, ◌∙◌, true, false, leb,
  get_or, arith,
}
use magicrescue.Base.Bits.{
  bit_xor_low, bit_xor_comm, bit_xor_assoc, bit_xor_fields, bit_xor-zero_right, bit_xor-lt,
  bit_xor-mod, bit_and_ones,
}
use magicrescue.Dupemap.Crctab.{crctab}
use magicrescue.Dupemap.Checksum.{crc_step}
use magicrescue.Dupemap.Checksum.Table.{shift_register, divide, crctab_entry, crctab_bound}

-- What the register of 32 bits holds after one more byte.
unfoldable pub cksum_byte : ℕ → ℕ → ℕ
cksum_byte r c = divide 8 (bit_xor r (c * 2 ^ 24))

-- Exclusive or with what is below a power of two leaves the digits above it.
bit_xor_below :
    (k q m b : ℕ) → m < 2 ^ k → b < 2 ^ k → bit_xor (q * 2 ^ k + m) b ≡ q * 2 ^ k + bit_xor m b
bit_xor_below k q m b hm hb =
    ap (bit_xor (q * 2 ^ k + m)) (rest b (2 ^ k))
    ∙ bit_xor_fields k q 0 m b hm hb
    ∙ ap (λ (t : ℕ). t * 2 ^ k + bit_xor m b) (bit_xor-zero_right q)
  where
    rest : (b t : ℕ) → b ≡ 0 * t + b
    rest b t = omega arith

bit_xor_double : (a b : ℕ) → bit_xor a b * 2 ≡ bit_xor (a * 2) (b * 2)
bit_xor_double a b = omega (
  arith,
  bit_xor_low (a * 2) (b * 2),
  ap (λ (t : ℕ). bit_xor t (b * 2 / 2)) (half a),
  ap (bit_xor a) (half b),
)
  where
    half : (x : ℕ) → x * 2 / 2 ≡ x
    half x = omega arith

bit_xor_swap : (a b c : ℕ) → bit_xor (bit_xor a b) c ≡ bit_xor (bit_xor a c) b
bit_xor_swap a b c =
    bit_xor_assoc a b c ∙ ap (bit_xor a) (bit_xor_comm b c) ∙ sym (bit_xor_assoc a c b)

-- A register whose top bit is known: what it becomes, and what becomes of one that differs below.
shift_register_set :
    (m : ℕ) → m < 2 ^ 31 → shift_register (1 * 2 ^ 31 + m) ≡ bit_xor (m * 2) 0x04C11DB7
unfolding shift_register
shift_register_set m h =
    let top : leb (2 ^ 31) (1 * 2 ^ 31 + m) ≡ true = ground arith in
    let rest : (1 * 2 ^ 31 + m) * 2 % 2 ^ 32 ≡ m * 2 = omega arith in
    rw (top, shift_register) (ap (λ (t : ℕ). bit_xor t 0x04C11DB7) rest)

shift_register_clear : (m : ℕ) → m < 2 ^ 31 → shift_register (0 * 2 ^ 31 + m) ≡ m * 2
unfolding shift_register
shift_register_clear m h =
    let top : leb (2 ^ 31) (0 * 2 ^ 31 + m) ≡ false = ground arith in
    rw (top, shift_register) (omega arith)

shift_register_split :
    (q m b : ℕ)
    → q < 2
    → m < 2 ^ 31
    → b < 2 ^ 31
    → shift_register (q * 2 ^ 31 + bit_xor m b) ≡ bit_xor (shift_register (q * 2 ^ 31 + m)) (b * 2)
shift_register_split zero m b hq hm hb =
    shift_register_clear (bit_xor m b) (bit_xor-lt 31 m b hm hb)
    ∙ bit_xor_double m b
    ∙ ap (λ (t : ℕ). bit_xor t (b * 2)) (sym (shift_register_clear m hm))
shift_register_split (suc zero) m b hq hm hb =
    shift_register_set (bit_xor m b) (bit_xor-lt 31 m b hm hb)
    ∙ ap (λ (t : ℕ). bit_xor t 0x04C11DB7) (bit_xor_double m b)
    ∙ bit_xor_swap (m * 2) (b * 2) 0x04C11DB7
    ∙ ap (λ (t : ℕ). bit_xor t (b * 2)) (sym (shift_register_set m hm))
shift_register_split (suc (suc q)) m b hq hm hb = absurd (omega arith)

shift_register-xor :
    (a b : ℕ)
    → a < 2 ^ 32
    → b < 2 ^ 31
    → shift_register (bit_xor a b) ≡ bit_xor (shift_register a) (b * 2)
shift_register-xor a b ha hb =
    let e : a / 2 ^ 31 * 2 ^ 31 + a % 2 ^ 31 ≡ a = omega arith in
    let m : a % 2 ^ 31 < 2 ^ 31 = omega arith in
    subst (λ t. shift_register (bit_xor t b) ≡ bit_xor (shift_register t) (b * 2)) e
      (ap shift_register (bit_xor_below 31 (a / 2 ^ 31) (a % 2 ^ 31) b m hb)
        ∙ shift_register_split (a / 2 ^ 31) (a % 2 ^ 31) b (omega arith) m hb)

shift_register-lt : (a : ℕ) → a < 2 ^ 32 → shift_register a < 2 ^ 32
unfolding shift_register
shift_register-lt a h =
    ground (arith, bit_xor-lt 32 (a * 2 % 2 ^ 32) 0x04C11DB7 (omega arith) (omega arith))

divide-xor :
    (n a b : ℕ)
    → a < 2 ^ 32
    → b * 2 ^ n < 2 ^ 32
    → divide n (bit_xor a b) ≡ bit_xor (divide n a) (b * 2 ^ n)
unfolding divide
divide-xor zero a b ha hb = ap (bit_xor a) (omega arith)
divide-xor (suc n) a b ha hb =
    let pos : 0 < 2 ^ n = one-le-pow n 2 (omega arith) in
    let e : b * 2 * 2 ^ n ≡ b * 2 ^ suc n =
      omega (
        arith,
        mul_assoc b 2 (2 ^ n),
        ap (λ (t : ℕ). b * t) (pow-suc 2 n),
        mul_assoc b (2 ^ n) 2,
      ) in
    ap (divide n) (shift_register-xor a b ha (grind (arith, e)))
    ∙ divide-xor n (shift_register a) (b * 2) (shift_register-lt a ha) (rw e hb)
    ∙ ap (bit_xor (divide n (shift_register a))) e

-- The register, a word of which the two top fields meet the byte.
cksum_byte_look_up :
    (hi lo c : ℕ)
    → lo < 2 ^ 24
    → bit_xor hi c < 256
    → cksum_byte (hi * 2 ^ 24 + lo) c ≡ bit_xor (lo * 2 ^ 8) (get_or crctab (bit_xor hi c) 0)
unfolding cksum_byte
cksum_byte_look_up hi lo c hlo hi_c =
    ap (divide 8) (parts (2 ^ 24) hi lo c (bit_xor_fields 24 hi c lo 0 hlo (omega arith)))
    ∙ ap (divide 8) (
        ap (λ (t : ℕ). bit_xor hi c * 2 ^ 24 + t) (bit_xor_comm lo 0)
        ∙ sym (bit_xor_below 24 (bit_xor hi c) 0 lo (omega arith) hlo))
    ∙ divide-xor 8 (bit_xor hi c * 2 ^ 24 + 0) lo (omega arith) (omega arith)
    ∙ bit_xor_comm (divide 8 (bit_xor hi c * 2 ^ 24 + 0)) (lo * 2 ^ 8)
    ∙ ap (bit_xor (lo * 2 ^ 8))
        (ap (divide 8) (omega arith) ∙ sym (crctab_entry (bit_xor hi c) hi_c))
  where
    parts :
        (p hi lo c : ℕ)
        → bit_xor (hi * p + lo) (c * p + 0) ≡ bit_xor hi c * p + bit_xor lo 0
        → bit_xor (hi * p + lo) (c * p) ≡ bit_xor hi c * p + bit_xor lo 0
    parts p hi lo c h = omega (arith, h, ap (bit_xor (hi * p + lo)) (zero_right (c * p)))
      where
        zero_right : (x : ℕ) → x + 0 ≡ x
        zero_right x = omega arith

-- A step of the program, in the low half of its word, is the register's.
pub crc_step-cksum_byte :
    (crc c : ℕ) → crc_step crc c % 2 ^ 32 ≡ cksum_byte (crc % 2 ^ 32) (c % 256)
unfolding crc_step
crc_step-cksum_byte crc c =
    let hi = crc % 2 ^ 32 / 2 ^ 24 in
    let lo = crc % 2 ^ 32 % 2 ^ 24 in
    let small : bit_xor hi (c % 256) < 256 =
      bit_xor-lt 8 hi (c % 256) (omega arith) (omega arith) in
    let index : bit_and (bit_xor (crc / 2 ^ 24) c) 0xFF ≡ bit_xor hi (c % 256) =
      bit_and_ones 8 (bit_xor (crc / 2 ^ 24) c)
      ∙ bit_xor-mod 8 (crc / 2 ^ 24) c
      ∙ ap (λ (t : ℕ). bit_xor t (c % 256)) (omega arith) in
    bit_xor-mod 32 (crc * 2 ^ 8 % 2 ^ 64)
      (get_or crctab (bit_and (bit_xor (crc / 2 ^ 24) c) 0xFF) 0)
    ∙ ap (λ (t : ℕ). bit_xor (crc * 2 ^ 8 % 2 ^ 64 % 2 ^ 32) (get_or crctab t 0 % 2 ^ 32)) index
    ∙ ap (λ (t : ℕ). bit_xor t (get_or crctab (bit_xor hi (c % 256)) 0 % 2 ^ 32)) (omega arith)
    ∙ ap (bit_xor (lo * 2 ^ 8)) (mod-eq_of_lt (crctab_bound (bit_xor hi (c % 256)) small))
    ∙ sym (cksum_byte_look_up hi lo (c % 256) (omega arith) small)
    ∙ ap (λ (t : ℕ). cksum_byte t (c % 256)) (omega arith)
