-- ===== src/Recipe.antt =====
-- src/recipe.c: the operations that a recipe tests, and the recipe itself.
pub mod Word
use magicrescue.Base.{
  ℕ, ◌+◌, ◌-◌, ◌*◌, ◌%◌, ◌^◌, bit_and, bit_or, Bool, true, ◌&&◌, Option, none, List, [], ◌∷◌, ltb,
  ◌==◌, if◌then◌else◌,
}
use magicrescue.Base.Int.{ℤ, pos}
use magicrescue.Memory.{Memory, holds}

-- `struct operation`: `func` with its `param`. The value and the mask are of 64 bits.
pub data OpFunc : Type 0 where
  op_string : List ℕ → OpFunc
  op_int32 : ℕ → ℕ → OpFunc

pub record Operation : Type 0 where
  pub func : OpFunc
  pub offset : ℕ

-- `s[0]<<24 | s[1]<<16 | s[2]<<8 | s[3]` is an `int`, and is extended to 64 bits by its sign.
unfoldable pub int_word : ℕ → ℕ → ℕ → ℕ → ℕ
int_word s0 s1 s2 s3 = bit_or (bit_or (bit_or (s0 * 2 ^ 24) (s1 * 2 ^ 16)) (s2 * 2 ^ 8)) s3

unfoldable pub sign_extend : ℕ → ℕ
sign_extend w = if ltb w (2 ^ 31) then w else w + (2 ^ 64 - 2 ^ 32)

unfoldable pub run_op_int32 : Memory → ℕ → ℕ → ℕ → Bool
unfolding int_word sign_extend
run_op_int32 mem p val mask =
    bit_and (sign_extend (int_word (mem p) (mem (p + 1)) (mem (p + 2)) (mem (p + 3)))) mask == val

-- The call `op->func(p + op->offset, &op->param)`, at `p`.
unfoldable pub run_op : Memory → ℕ → Operation → Bool
unfolding run_op_int32
run_op mem p op = elim op.func [
  | op_string s ↦ holds mem (p + op.offset) s
  | op_int32 val mask ↦ run_op_int32 mem (p + op.offset) val mask
]

-- `struct recipe`. A null pointer is `none`.
pub record Recipe : Type 0 where
  pub ops : List Operation
  pub extension : List ℕ
  pub command : Option (List ℕ)
  pub postextract : Option (List ℕ)
  pub rename : Option (List ℕ)
  pub min_output_file : ℤ
  pub name : List ℕ
  pub allow_overlap : ℤ

abbrev pub recipe_init : Recipe
recipe_init = record {
  ops = [];
  extension = [];
  command = none;
  postextract = none;
  rename = none;
  min_output_file = pos 100;
  name = [];
  allow_overlap = pos 0;
}

-- The loop over `r->ops`, left at the first operation that fails.
unfoldable pub ops_match : Memory → ℕ → List Operation → Bool
ops_match mem p [] = true
ops_match mem p (op ∷ ops) = run_op mem p op && ops_match mem p ops
