-- ===== src/Dupemap/Checksum/Table.antt =====
-- `crctab` of src/dupemap.c, against the division by the polynomial 0x04C11DB7.
use magicrescue.Base.{
  ℕ, zero, suc, ◌*◌, ◌%◌, ◌^◌, ◌<◌, bit_xor, ◌≡◌, refl, Bool, true, ltb, leb, ◌==◌, if◌then◌else◌,
  get_or, ==_iff, ltb→lt, ◌&&◌, and_true,
}
use magicrescue.Base.Table.{all_below, all_below-at}
use magicrescue.Dupemap.Crctab.{crctab}

-- One step of the division by the polynomial, in a register of 32 bits.
unfoldable pub shift_register : ℕ → ℕ
shift_register r = if leb (2 ^ 31) r then bit_xor (r * 2 % 2 ^ 32) 0x04C11DB7 else r * 2

unfoldable pub divide : ℕ → ℕ → ℕ
unfolding shift_register
divide zero r = r
divide (suc n) r = divide n (shift_register r)

abbrev entry_test : ℕ → Bool
entry_test i = (get_or crctab i 0 == divide 8 (i * 2 ^ 24)) && ltb (get_or crctab i 0) (2 ^ 32)

entries : all_below 256 entry_test ≡ true
unfolding all_below divide shift_register
entries = refl

entry :
    (i : ℕ) → i < 256 → (get_or crctab i 0 ≡ divide 8 (i * 2 ^ 24)) × (get_or crctab i 0 < 2 ^ 32)
entry i h =
    let (e, l) =
      and_true (get_or crctab i 0 == divide 8 (i * 2 ^ 24)) (ltb (get_or crctab i 0) (2 ^ 32))
        (all_below-at 256 entry_test i entries h) in
    (
      (==_iff (get_or crctab i 0) (divide 8 (i * 2 ^ 24))).0 e,
      ltb→lt (get_or crctab i 0) (2 ^ 32) l,
    )

pub crctab_entry : (i : ℕ) → i < 256 → get_or crctab i 0 ≡ divide 8 (i * 2 ^ 24)
crctab_entry i h = (entry i h).0

pub crctab_bound : (i : ℕ) → i < 256 → get_or crctab i 0 < 2 ^ 32
crctab_bound i h = (entry i h).1
