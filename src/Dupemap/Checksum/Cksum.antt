-- ===== src/Dupemap/Checksum/Cksum.antt =====
-- `checksum_calc` of src/dupemap.c, against the checksum of POSIX `cksum`.
use magicrescue.Base.{
  ℕ, zero, suc, ◌+◌, ◌-◌, ◌*◌, ◌/◌, ◌%◌, ◌^◌, ◌<◌, ◌≤◌, bit_and, bit_xor, ◌≡◌, refl, ap, sym, ◌∙◌,
  true, false, some, List, [], ◌∷◌, ◌++◌, ◌==◌, length, get_or, arith, All,
}
use magicrescue.Base.Bits.{bit_xor-lt, bit_and_ones}
use magicrescue.Dupemap.Crctab.{crctab}
use magicrescue.Dupemap.Checksum.{
  crc_step, crc_bytes, crc_chunks, crc_length, crc_final, checksum_calc,
}
use magicrescue.Dupemap.Checksum.Table.{crctab_bound}
use magicrescue.Dupemap.Checksum.Register.{cksum_byte, crc_step-cksum_byte}

abbrev IsByte : ℕ → Type 0
IsByte c = c < 256

unfoldable pub cksum_register : ℕ → List ℕ → ℕ
cksum_register r [] = r
cksum_register r (c ∷ cs) = cksum_register (cksum_byte r c) cs

abbrev pub octets_value : List ℕ → ℕ
octets_value [] = 0
octets_value (o ∷ os) = o + 256 * octets_value os

abbrev EndsNonzero : List ℕ → Type 0
EndsNonzero [] = Unit
EndsNonzero (o ∷ []) = 0 < o
EndsNonzero (o ∷ p ∷ os) = EndsNonzero (p ∷ os)

-- The least number of octets that hold `len`, the lowest first.
pub record IsLength (os : List ℕ) (len : ℕ) : Type 0 where
  pub value : octets_value os ≡ len
  pub bytes : All IsByte os
  pub minimal : EndsNonzero os

unfoldable pub joined : List (List ℕ) → List ℕ
joined [] = []
joined (buf ∷ bufs) = buf ++ joined bufs

octets_value-positive : (o : ℕ) (os : List ℕ) → EndsNonzero (o ∷ os) → 0 < octets_value (o ∷ os)
octets_value-positive o [] h = omega arith
octets_value-positive o (p ∷ os) h = omega (arith, octets_value-positive p os h)

EndsNonzero-tail : (o : ℕ) (os : List ℕ) → EndsNonzero (o ∷ os) → EndsNonzero os
EndsNonzero-tail o [] h = tt
EndsNonzero-tail o (p ∷ os) h = h

crc_bytes-register :
    (crc : ℕ) (cs : List ℕ)
    → All IsByte cs
    → crc_bytes crc cs % 2 ^ 32 ≡ cksum_register (crc % 2 ^ 32) cs
unfolding crc_bytes cksum_register
crc_bytes-register crc [] h = refl
crc_bytes-register crc (c ∷ cs) (h, hs) =
    crc_bytes-register (crc_step crc c) cs hs
    ∙ ap (λ (t : ℕ). cksum_register t cs)
        (crc_step-cksum_byte crc c ∙ ap (cksum_byte (crc % 2 ^ 32)) (omega arith))

cksum_register-append :
    (r : ℕ) (xs ys : List ℕ) → cksum_register r (xs ++ ys) ≡ cksum_register (cksum_register r xs) ys
unfolding cksum_register
cksum_register-append r [] ys = refl
cksum_register-append r (x ∷ xs) ys = cksum_register-append (cksum_byte r x) xs ys

crc_bytes-append :
    (crc : ℕ) (xs ys : List ℕ) → crc_bytes crc (xs ++ ys) ≡ crc_bytes (crc_bytes crc xs) ys
unfolding crc_bytes
crc_bytes-append crc [] ys = refl
crc_bytes-append crc (x ∷ xs) ys = crc_bytes-append (crc_step crc x) xs ys

length-joined : (xs ys : List ℕ) (len : ℕ) → (len + length xs) + length ys ≡ len + length (xs ++ ys)
length-joined [] ys len = omega arith
length-joined (x ∷ xs) ys len = omega (arith, length-joined xs ys len)

-- How a file is cut into buffers does not matter.
crc_chunks-joined :
    (crc len : ℕ) (bufs : List (List ℕ))
    → crc_chunks crc len bufs ≡ (crc_bytes crc (joined bufs), len + length (joined bufs))
unfolding crc_chunks joined crc_bytes
crc_chunks-joined crc len [] = ap (λ (t : ℕ). (crc, t)) (omega arith)
crc_chunks-joined crc len (buf ∷ bufs) =
    crc_chunks-joined (crc_bytes crc buf) (len + length buf) bufs
    ∙ rw (crc_bytes-append crc buf (joined bufs), length-joined buf (joined bufs) len) refl

crc_length-register :
    (fuel crc len : ℕ) (os : List ℕ)
    → IsLength os len
    → len ≤ fuel
    → crc_length fuel crc len % 2 ^ 32 ≡ cksum_register (crc % 2 ^ 32) os
unfolding crc_length cksum_register
crc_length-register zero crc len [] h le = refl
crc_length-register zero crc len (o ∷ os) h le =
    absurd (omega (arith, octets_value-positive o os h.minimal, h.value))
crc_length-register (suc fuel) crc len [] h le =
    let z : (len == 0) ≡ true = ground (arith, h.value) in rw (z, crc_length) refl
crc_length-register (suc fuel) crc len (o ∷ os) h le =
    let more : 0 < len = omega (arith, octets_value-positive o os h.minimal, h.value) in
    let nz : (len == 0) ≡ false = ground arith in
    let low : len % 256 ≡ o = omega (arith, h.value, h.bytes.0) in
    let rest : IsLength os (len / 2 ^ 8) = record {
      value = omega (arith, h.value, h.bytes.0);
      bytes = h.bytes.1;
      minimal = EndsNonzero-tail o os h.minimal;
    } in
    rw (nz, crc_length)
      (crc_length-register fuel (crc_step crc len) (len / 2 ^ 8) os rest (omega arith)
        ∙ ap (λ (t : ℕ). cksum_register t os)
            (crc_step-cksum_byte crc len ∙ ap (cksum_byte (crc % 2 ^ 32)) low))

crc_step-lt : (crc c : ℕ) → crc_step crc c < 2 ^ 64
unfolding crc_step
crc_step-lt crc c =
    let i = bit_and (bit_xor (crc / 2 ^ 24) c) 0xFF in
    bit_xor-lt 64 (crc * 2 ^ 8 % 2 ^ 64) (get_or crctab i 0) (omega arith)
      (omega (arith, crctab_bound i (omega (arith, bit_and_ones 8 (bit_xor (crc / 2 ^ 24) c)))))

crc_bytes-lt : (crc : ℕ) (cs : List ℕ) → crc < 2 ^ 64 → crc_bytes crc cs < 2 ^ 64
unfolding crc_bytes
crc_bytes-lt crc [] h = h
crc_bytes-lt crc (c ∷ cs) h = crc_bytes-lt (crc_step crc c) cs (crc_step-lt crc c)

crc_length-lt : (fuel crc len : ℕ) → crc < 2 ^ 64 → crc_length fuel crc len < 2 ^ 64
unfolding crc_length
crc_length-lt zero crc len h = h
crc_length-lt (suc fuel) crc len h =
    ground (arith, crc_length-lt fuel (crc_step crc len) (len / 2 ^ 8) (crc_step-lt crc len))

crc_final_complement : (crc : ℕ) → crc < 2 ^ 64 → crc_final crc ≡ 2 ^ 32 - 1 - crc % 2 ^ 32
unfolding crc_final
crc_final_complement crc h = omega (arith, bit_and_ones 32 (2 ^ 64 - 1 - crc))

-- For a file that is read to its end, in whatever buffers, the checksum is the complement of what the
-- division register holds after the bytes of the file and the octets of their number.
pub checksum_calc-cksum :
    (chunks : List (List ℕ)) (octets : List ℕ)
    → All IsByte (joined chunks)
    → IsLength octets (length (joined chunks))
    → checksum_calc (some (record { chunks = chunks; error = false }))
      ≡ some (record {
        crc = 2 ^ 32 - 1 - cksum_register 0 (joined chunks ++ octets);
        filesize = length (joined chunks);
      })
unfolding checksum_calc
checksum_calc-cksum chunks octets h os =
    let bs = joined chunks in
    let e : crc_final (crc_length (length bs) (crc_bytes 0 bs) (length bs))
        ≡ 2 ^ 32 - 1 - cksum_register 0 (bs ++ octets) =
      crc_final_complement (crc_length (length bs) (crc_bytes 0 bs) (length bs))
        (crc_length-lt (length bs) (crc_bytes 0 bs) (length bs) (crc_bytes-lt 0 bs (omega arith)))
      ∙ ap (λ (t : ℕ). 2 ^ 32 - 1 - t)
          (crc_length-register (length bs) (crc_bytes 0 bs) (length bs) octets os (omega arith)
            ∙ ap (λ (t : ℕ). cksum_register t octets) (crc_bytes-register 0 bs h)
            ∙ sym (cksum_register-append 0 bs octets)) in
    let z : 0 + length bs ≡ length bs = omega arith in
    rw (crc_chunks-joined 0 0 chunks, z)
      (ap (λ (t : ℕ). some (record { crc = t; filesize = length bs })) e)
