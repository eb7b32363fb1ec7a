-- ===== src/Recipe/Word.antt =====
-- What `op_int32` of src/recipe.c compares, and which bytes an operation reads.
use magicrescue.Base.{
  ℕ, ◌+◌, ◌*◌, ◌%◌, ◌^◌, ◌<◌, bit_and, bit_or, ◌≡◌, ap, ◌∙◌, ◌==◌, length, arith,
}
use magicrescue.Base.Bits.{bit_or_fields, bit_and_mod}
use magicrescue.Memory.{Memory, Agree}
use magicrescue.Memory.First.{holds-Agree}
use magicrescue.Recipe.{
  OpFunc, op_string, op_int32, Operation, int_word, sign_extend, run_op_int32, run_op,
}

-- The number of four bytes, most significant first.
abbrev pub big_endian : ℕ → ℕ → ℕ → ℕ → ℕ
big_endian s0 s1 s2 s3 = ((s0 * 256 + s1) * 256 + s2) * 256 + s3

int_word-big_endian :
    (s0 s1 s2 s3 : ℕ)
    → s1 < 256
    → s2 < 256
    → s3 < 256
    → int_word s0 s1 s2 s3 ≡ big_endian s0 s1 s2 s3
unfolding int_word
int_word-big_endian s0 s1 s2 s3 h1 h2 h3 =
    let a : bit_or (s0 * 2 ^ 24) (s1 * 2 ^ 16) ≡ (s0 * 256 + s1) * 2 ^ 16 =
      bit_or_fields 24 s0 (s1 * 2 ^ 16) (omega arith) ∙ omega arith in
    let b : bit_or ((s0 * 256 + s1) * 2 ^ 16) (s2 * 2 ^ 8) ≡ ((s0 * 256 + s1) * 256 + s2) * 2 ^ 8 =
      bit_or_fields 16 (s0 * 256 + s1) (s2 * 2 ^ 8) (omega arith) ∙ omega arith in
    ap (λ (t : ℕ). bit_or (bit_or t (s2 * 2 ^ 8)) s3) a
    ∙ ap (λ (t : ℕ). bit_or t s3) b
    ∙ bit_or_fields 8 ((s0 * 256 + s1) * 256 + s2) s3 (omega arith)
    ∙ omega arith

sign_extend-mod : (w : ℕ) → w < 2 ^ 32 → sign_extend w % 2 ^ 32 ≡ w
unfolding sign_extend
sign_extend-mod w h = ground arith

-- With a mask of 32 bits `op_int32` compares the four bytes at `p` as a big-endian number: the
-- sign of the C `int` does not show.
pub run_op_int32-big_endian :
    (mem : Memory) (p val mask : ℕ)
    → ((i : ℕ) → mem i < 256)
    → mask < 2 ^ 32
    → run_op_int32 mem p val mask
      ≡ (bit_and (big_endian (mem p) (mem (p + 1)) (mem (p + 2)) (mem (p + 3))) mask == val)
unfolding run_op_int32
run_op_int32-big_endian mem p val mask b h =
    let w = big_endian (mem p) (mem (p + 1)) (mem (p + 2)) (mem (p + 3)) in
    let small : w < 2 ^ 32 = omega (arith, b p, b (p + 1), b (p + 2), b (p + 3)) in
    rw
      (int_word-big_endian (mem p) (mem (p + 1)) (mem (p + 2)) (mem (p + 3)) (b (p + 1)) (b (p + 2))
        (b (p + 3)))
      (ap (λ (t : ℕ). t == val)
        (bit_and_mod 32 (sign_extend w) mask h
          ∙ ap (λ (t : ℕ). bit_and t mask) (sign_extend-mod w small)))

-- The number of bytes that an operation may read, as `parse_recipe` counts them.
abbrev pub op_len : OpFunc → ℕ
op_len (op_string s) = length s
op_len (op_int32 val mask) = 4

run_op_int32-Agree :
    (m m' : Memory) (p val mask : ℕ)
    → Agree m m' p (p + 4)
    → run_op_int32 m p val mask ≡ run_op_int32 m' p val mask
unfolding run_op_int32
run_op_int32-Agree m m' p val mask h = rw (
  h p (omega arith) (omega arith),
  h (p + 1) (omega arith) (omega arith),
  h (p + 2) (omega arith) (omega arith),
  h (p + 3) (omega arith) (omega arith),
)

run_func-Agree :
    (m m' : Memory) (p offset : ℕ) (f : OpFunc)
    → Agree m m' (p + offset) (p + (offset + op_len f))
    → run_op m p (record { func = f; offset = offset })
      ≡ run_op m' p (record { func = f; offset = offset })
unfolding run_op
run_func-Agree m m' p offset (op_string s) h =
    holds-Agree m m' (p + offset) s (λ i lo hi. h i lo (omega arith))
run_func-Agree m m' p offset (op_int32 val mask) h =
    run_op_int32-Agree m m' (p + offset) val mask (λ i lo hi. h i lo (omega arith))

-- An operation reads only the bytes from its offset up to its offset plus its length.
pub run_op-Agree :
    (m m' : Memory) (p : ℕ) (op : Operation)
    → Agree m m' (p + op.offset) (p + (op.offset + op_len op.func))
    → run_op m p op ≡ run_op m' p op
run_op-Agree m m' p op h = run_func-Agree m m' p op.offset op.func h
