-- ===== src/Textextract.antt =====
-- `inspect_char` of tools/textextract.c: the score that a text collects, a character at a time.
pub mod Rules
pub mod Stream
pub mod Forward
pub mod Buffer
pub mod Copy
pub mod Written
pub mod Backward
pub mod Back
pub mod Around
pub mod Main
use magicrescue.Base.{
  ℕ, zero, suc, ◌+◌, ◌-◌, bit_and, Bool, true, false, ◌&&◌, ◌||◌, not, Option, none, some, List, [],
  ◌∷◌, ltb, leb, ◌==◌, if◌then◌else◌,
}
use magicrescue.Base.Int.{ℤ, pos, negsuc, to_nat}

-- The globals that the options set.
pub record Options : Type 0 where
  pub max_score : ℤ
  pub block_score : ℤ
  pub max_line : ℤ
  pub max_bytes : ℤ

pub data Direction : Type 0 where
  dir_forward dir_reverse : Direction

-- An entry of `scorelut` and `replut`.
pub record Entry : Type 0 where
  pub score : ℤ
  pub rep : ℕ

-- `struct scores`, its pointer apart. A negative `offset` is `none`.
pub record Counters : Type 0 where
  pub repeated_char : ℕ
  pub sum_score : ℕ
  pub sum_repeats : ℕ
  pub cur_line : ℕ
  pub offset : Option ℕ
  pub bytes_processed : ℕ

-- `last_letter` is an index of the buffer.
pub record Scores : Type 0 where
  pub last_letter : Option ℕ
  pub counters : Counters

abbrev pub is_positive : ℤ → Bool
is_positive (pos n) = ltb 0 n
is_positive (negsuc n) = false

-- `s->sum_score += score`, and 0 for a sum below 0.
abbrev pub add_score : ℕ → ℤ → ℕ
add_score n (pos k) = n + k
add_score n (negsuc k) = n - suc k

abbrev pub above : ℕ → ℤ → Bool
above n (pos m) = ltb m n
above n (negsuc m) = true

abbrev pub move_offset : Direction → ℕ → Option ℕ
move_offset dir_forward o = some (o + 1)
move_offset dir_reverse o = if o == 0 then none else some (o - 1)

unfoldable pub scores_init : Option ℕ → Scores
scores_init offset = record {
  last_letter = none;
  counters = record {
    repeated_char = 0;
    sum_score = 0;
    sum_repeats = 0;
    cur_line = 0;
    offset = offset;
    bytes_processed = 0;
  };
}

module _ (opt : Options) (dir : Direction) (lut : ℕ → Entry) where
  -- The score at the start of a block.
  unfoldable pub block_part : Counters → Counters
  block_part s = elim s.offset [
    | none ↦ s
    | some o ↦
        if is_positive opt.block_score
        then record s {
          sum_score =
              if bit_and o 511 == 0 && ltb s.sum_score (to_nat opt.block_score)
              then to_nat opt.block_score
              else s.sum_score;
          offset = move_offset dir o;
        }
        else s
  ]

  unfoldable pub bytes_part : Counters → Counters × Bool
  bytes_part s =
      if is_positive opt.max_bytes
      then (
        record s { bytes_processed = s.bytes_processed + 1 },
        ltb (to_nat opt.max_bytes) (s.bytes_processed + 1),
      )
      else (s, false)

  unfoldable pub line_part : ℕ → Counters → Counters × Bool
  unfolding bytes_part
  line_part c s =
      if is_positive opt.max_line
      then (if c == 13 || c == 10
          then bytes_part (record s { cur_line = 0 })
          else if ltb (to_nat opt.max_line) (s.cur_line + 1)
          then (record s { cur_line = s.cur_line + 1 }, true)
          else bytes_part (record s { cur_line = s.cur_line + 1 }))
      else bytes_part s

  unfoldable pub repeat_part : ℕ → Counters → Counters × Bool
  unfolding line_part
  repeat_part c s =
      if s.repeated_char == c && not ((lut c).rep == 0)
      then (if ltb (lut c).rep (s.sum_repeats + 1)
          then (record s { sum_repeats = s.sum_repeats + 1 }, true)
          else line_part c (record s { sum_repeats = s.sum_repeats + 1; repeated_char = c }))
      else line_part c (record s { sum_repeats = 0; repeated_char = c })

  -- The counters after a character, and whether it ends the text.
  unfoldable pub count_char : Counters → ℕ → Counters × Bool
  unfolding block_part repeat_part
  count_char s c =
      let b = block_part s in
      let t = record b { sum_score = add_score b.sum_score (lut c).score } in
      if above t.sum_score opt.max_score then (t, true) else repeat_part c t

  -- `inspect_char` at the index `p` of the buffer.
  unfoldable pub inspect_char : Scores → ℕ → ℕ → Scores × Bool
  unfolding count_char
  inspect_char s p c =
      let (counters, stop) = count_char s.counters c in
      (
        record {
          last_letter = if is_positive (lut c).score then s.last_letter else some p;
          counters = counters;
        },
        stop,
      )

  abbrev pub unless_stop : (Scores → Scores × Bool) → Scores × Bool → Scores × Bool
  unless_stop next (s, true) = (s, true)
  unless_stop next (s, false) = next s

  -- The loop of `read_forward` over what a read has put at the index `p`: it goes on to the next read
  -- unless a character ends the text.
  unfoldable pub inspect_all : Scores → ℕ → List ℕ → Scores × Bool
  inspect_all s p [] = (s, false)
  inspect_all s p (c ∷ cs) = unless_stop (λ s'. inspect_all s' (p + 1) cs) (inspect_char s p c)
