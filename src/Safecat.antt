-- ===== src/Safecat.antt =====
-- The loops of `main` of tools/safecat.c, which copies its input to a command and watches the size of
-- the file that the command writes.
pub mod Prefix
use magicrescue.Base.{
  ℕ, zero, suc, ◌+◌, ◌-◌, Bool, true, false, ◌&&◌, Option, none, some, List, [], ◌∷◌, ltb, ◌==◌,
  if◌then◌else◌, length, drop,
}
use magicrescue.Base.Int.{ℤ, pos, negsuc}
use magicrescue.Device.{Device}
use magicrescue.Sink.{Sink}

-- The variables that the options set.
pub record Limits : Type 0 where
  pub max_diff : ℤ
  pub max_unchanged : ℤ
  pub max_total : ℤ

-- The local variables, and the states of the two descriptors.
pub record Cat (W V : Type 0) : Type 0 where
  pub total_in : ℕ
  pub total_out : ℕ
  pub in_at_last_out : ℕ
  pub input : W
  pub output : V

-- How the inner loop is left: with the whole buffer written, or by the `goto`; the last stands for a
-- loop that has not ended.
pub data Copied : Type 0 where
  all_written write_stopped loop_out_of_fuel : Copied

-- How the loops are left; the last stands for a loop that has not ended.
pub data End : Type 0 where
  at_end limit_reached write_ended out_of_fuel : End

-- `m > a - b`.
abbrev pub exceeds : ℤ → ℕ → ℕ → Bool
exceeds (pos m) a b = ltb a (m + b)
exceeds (negsuc m) a b = ltb (a + suc m) b

abbrev pub bufsize : ℕ
bufsize = 102400

-- `file_size` is what `stat` says of the file, and none for an error.
module _ {W V : Type 0} (dev : Device W) (sink : Sink V) (file_size : V → Option ℕ)
    (limits : Limits) where
  abbrev pub after_write :
      (List ℕ → Cat W V → Copied × Cat W V) → List ℕ → Cat W V → Option ℕ × V → Copied × Cat W V
  after_write next bs c (none, v) = (write_stopped, record c { output = v })
  after_write next bs c (some n, v) =
      if n == 0
      then (write_stopped, record c { output = v })
      else next (drop n bs) (record c { total_in = c.total_in + n; output = v })

  -- The inner loop, on what is left of the buffer and on fuel.
  unfoldable pub write_loop : ℕ → List ℕ → Cat W V → Copied × Cat W V
  write_loop fuel [] c = (all_written, c)
  write_loop zero (b ∷ bs) c = (loop_out_of_fuel, c)
  write_loop (suc fuel) (b ∷ bs) c =
      after_write (write_loop fuel) (b ∷ bs) c (sink.write (b ∷ bs) c.output)

  unfoldable pub look : Cat W V → Cat W V
  look c = elim (file_size c.output) [
    | none ↦ record c { total_out = 0 }
    | some size ↦
        if size == c.total_out
        then c
        else record c { total_out = size; in_at_last_out = c.total_in }
  ]

  unfoldable pub goes_on : Cat W V → Bool
  goes_on c =
      exceeds limits.max_total c.total_out 0
      && (exceeds limits.max_diff c.total_in c.total_out
          && exceeds limits.max_unchanged c.total_in c.in_at_last_out)

  unfoldable pub after_copy : (Cat W V → End × Cat W V) → Copied × Cat W V → End × Cat W V
  unfolding look goes_on
  after_copy next (loop_out_of_fuel, c) = (out_of_fuel, c)
  after_copy next (write_stopped, c) = (write_ended, c)
  after_copy next (all_written, c) =
      if goes_on (look c) then next (look c) else (limit_reached, look c)

  unfoldable pub after_read : (Cat W V → End × Cat W V) → Cat W V → Option (List ℕ) → End × Cat W V
  unfolding write_loop after_copy
  after_read next c none = (at_end, c)
  after_read next c (some []) = (at_end, c)
  after_read next c (some (b ∷ bs)) = after_copy next (write_loop (length (b ∷ bs)) (b ∷ bs) c)

  -- The outer loop, on fuel for its reads.
  unfoldable pub cat_loop : ℕ → Cat W V → End × Cat W V
  unfolding after_read
  cat_loop zero c = (out_of_fuel, c)
  cat_loop (suc fuel) c =
      let (bs, w) = dev.read bufsize c.input in
      after_read (cat_loop fuel) (record c { input = w }) bs

  -- A read returns a byte at least, so one for each byte of the input, and one more, are enough fuel.
  unfoldable pub safecat : W → V → End × Cat W V
  unfolding cat_loop
  safecat w v =
      cat_loop (suc dev.size)
        (record { total_in = 0; total_out = 0; in_at_last_out = 0; input = w; output = v })
