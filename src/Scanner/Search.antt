-- ===== src/Scanner/Search.antt =====
-- The searches of src/scanner.c.
use native.Mathlib.Nat.{mod-lt, mod-add-mod, mod-eq_of_lt, mod_self, one-le-pow}
use mathlib.Core.Path.{subst}
use magicrescue.Base.{
  ℕ, zero, suc, ◌+◌, ◌-◌, ◌%◌, ◌^◌, ◌≤◌, ◌<◌, bit_and, ◌≡◌, ◌≢◌, sym, ap, ◌∙◌, Bool, true, Option,
  none, some, List, ltb, ◌==◌, get_elem?, arith, Bool-cases, inl, inr, ==_iff, ltb→lt,
}
use magicrescue.Base.Bits.{bit_and_ones}
use magicrescue.Memory.{Memory, memchr, holds}
use magicrescue.Memory.First.{
  First, Misses, First-extend, Misses-one, Misses-join, memchr-First, holds-elem,
}
use magicrescue.Scanner.{string_hit, string_loop, scanner_string, scanner_block}

-- Where the magic character is missing, the string is missing.
Misses-string :
    (mem : Memory) (str : List ℕ) (c off lo hi : ℕ)
    → get_elem? str off ≡ some c
    → Misses (λ i. mem i == c) (lo + off) (hi + off)
    → Misses (λ i. holds mem i str) lo hi
Misses-string mem str c off lo hi e h i p q = elim (Bool-cases (holds mem i str)) [
  | inr miss ↦ miss
  | inl hit ↦ ground (arith, holds-elem mem i str off c hit e, h (i + off))
]

module _ (mem : Memory) (str : List ℕ) (c off : ℕ) (magic : get_elem? str off ≡ some c) where
  string_hit-First :
      (lo hi : ℕ) (rest : ℕ → Option ℕ) (o : Option ℕ)
      → First (λ i. mem i == c) (lo + off) (hi + off) o
      → ((j : ℕ) → lo ≤ j → j < hi → First (λ i. holds mem i str) (j + 1) hi (rest (j + (off + 1))))
      → First (λ i. holds mem i str) lo hi (string_hit mem str off rest o)
  string_hit-First lo hi rest none f later = Misses-string mem str c off lo hi magic f
  string_hit-First lo hi rest (some q) f later = elim (Bool-cases (holds mem (q - off) str)) [
    | inl hit ↦ rw (hit, First) (omega arith, omega arith, hit, before)
    | inr miss ↦
        rw (miss, First)
          (First-extend {test = λ i. holds mem i str} lo (q - off + 1) hi
            (rest (q - off + (off + 1))) (omega arith)
            (Misses-join {test = λ i. holds mem i str} lo (q - off) (q - off + 1) before
              (Misses-one (λ i. holds mem i str) (q - off) miss))
            (later (q - off) (omega arith) (omega arith)))
  ]
    where
      before : Misses (λ i. holds mem i str) lo (q - off)
      before = Misses-string mem str c off lo (q - off) magic (λ i a b. f.3 i a (omega arith))

  -- One round, from the candidate `lo` on.
  string_loop-First :
      (fuel scanbuf len lo : ℕ)
      → scanbuf ≤ lo
      → scanbuf + len < lo + fuel
      → lo ≤ scanbuf + len
      → First
          (λ i. holds mem i str)
          lo
          (scanbuf + len)
          (string_loop fuel mem scanbuf (len + off) str c off (lo + off))
  unfolding string_loop
  string_loop-First zero scanbuf len lo h f u = absurd (omega arith)
  string_loop-First (suc fuel) scanbuf len lo h f u =
      elim (Bool-cases (ltb (lo + off - scanbuf) (len + off))) [
        | inr out ↦ rw (out, First) (λ i a b. absurd (ground arith))
        | inl inside ↦
            rw (inside, First)
              (let e : lo + off + (len + off - (lo + off - scanbuf)) ≡ scanbuf + len + off =
                  ground arith in
                string_hit-First lo (scanbuf + len)
                  (string_loop fuel mem scanbuf (len + off) str c off)
                  (memchr mem (lo + off) c (len + off - (lo + off - scanbuf)))
                  (subst
                    (λ (t : ℕ).
                      First (λ i. mem i == c) (lo + off) t
                        (memchr mem (lo + off) c (len + off - (lo + off - scanbuf))))
                    e (memchr-First mem (lo + off) c (len + off - (lo + off - scanbuf))))
                  (λ j a b.
                    let z : j + (off + 1) ≡ j + 1 + off = omega arith in
                    rw z (
                      string_loop-First fuel scanbuf len (j + 1) (omega arith) (omega arith)
                        (omega arith))))
      ]

  -- The search by the rarest character finds what a comparison at every place in turn would find:
  -- `scanner_string` returns the first place of the buffer at which the string stands, if the
  -- magic character is the one of the string at the magic offset.
  pub scanner_string-First :
      (scanbuf len : ℕ)
      → First
          (λ i. holds mem i str)
          scanbuf
          (scanbuf + len)
          (scanner_string mem scanbuf len str c off)
  unfolding scanner_string
  scanner_string-First scanbuf len =
      string_loop-First (suc len) scanbuf len scanbuf (omega arith) (omega arith) (omega arith)

-- The place of `i` in the file is a multiple of the block size; `scanbuf` is at `offset`.
abbrev pub aligned : ℕ → ℕ → ℕ → ℕ → Bool
aligned block scanbuf offset i = (offset + (i - scanbuf)) % block == 0

aligned-next : (b x d : ℕ) → 0 < b → x % b ≢ 0 → d < b - x % b → (x + d) % b ≡ x % b + d
aligned-next b x d pos ne h = sym (mod-add-mod x b d) ∙ mod-eq_of_lt (omega (arith, mod-lt x pos))

module _ (block scanbuf len offset : ℕ) (pos : 0 < block) where
  aligned-jump :
      offset % block ≢ 0 → aligned block scanbuf offset (scanbuf + block - offset % block) ≡ true
  aligned-jump ne =
      let d : scanbuf + block - offset % block - scanbuf ≡ block - offset % block =
        omega (arith, mod-lt offset pos) in
      let e : offset % block + (block - offset % block) ≡ block =
        omega (arith, mod-lt offset pos) in
      (==_iff _ 0).1 (
        ap (λ (t : ℕ). (offset + t) % block) d
        ∙ sym (mod-add-mod offset block (block - offset % block))
        ∙ ap (λ (t : ℕ). t % block) e
        ∙ mod_self block)

  Misses-aligned :
      offset % block ≢ 0
      → Misses (aligned block scanbuf offset) scanbuf (scanbuf + block - offset % block)
  Misses-aligned ne i a b =
      ground
        (arith, aligned-next block offset (i - scanbuf) pos ne (omega (arith, mod-lt offset pos)))

  block-First :
      0 < len
      → bit_and offset (block - 1) ≡ offset % block
      → First
          (aligned block scanbuf offset)
          scanbuf
          (scanbuf + len)
          (scanner_block scanbuf len block offset)
  unfolding scanner_block
  block-First some_len mask = elim (Bool-cases (offset % block == 0)) [
    | inl here ↦
        rw (mask, here, First)
          (let z : offset + (scanbuf - scanbuf) ≡ offset = omega arith in
            (omega arith, omega arith, rw z here, λ i a b. absurd (omega arith)))
    | inr later ↦
        let ne : offset % block ≢ 0 = ground arith in
        elim (Bool-cases (ltb (block - offset % block) len)) [
          | inl inside ↦
              rw (mask, later, inside, First)
                (
                  omega (arith, mod-lt offset pos),
                  omega (arith, mod-lt offset pos, ltb→lt _ _ inside),
                  aligned-jump ne,
                  Misses-aligned ne,
                )
          | inr outside ↦
              rw (mask, later, outside, First)
                (λ i a b. Misses-aligned ne i a (ground (arith, mod-lt offset pos)))
        ]
  ]

-- `scanner_block` returns the first place of the buffer whose offset in the file is a multiple of
-- the block size, for a block size that is a power of two and a buffer that is not empty.
pub scanner_block-First :
    (k scanbuf len offset : ℕ)
    → 0 < len
    → First
        (aligned (2 ^ k) scanbuf offset)
        scanbuf
        (scanbuf + len)
        (scanner_block scanbuf len (2 ^ k) offset)
scanner_block-First k scanbuf len offset h =
    block-First (2 ^ k) scanbuf len offset (one-le-pow k 2 (omega arith)) h (bit_and_ones k offset)
