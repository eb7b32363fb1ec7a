-- ===== src/Textextract/Forward.antt =====
-- `read_forward`, `read_backward` and `do_textextract` of tools/textextract.c. The buffer is the list of
-- the bytes that it holds below `bufpos`; `memmove` to its start drops what is in front.
use magicrescue.Base.{
  ℕ, zero, suc, ◌+◌, ◌-◌, Bool, true, false, Option, none, some, List, [], ◌∷◌, ◌++◌, ◌==◌,
  if◌then◌else◌, length, take, drop,
}
use magicrescue.Device.{Device}
use magicrescue.Sink.{Sink, Wrote, wrote, write_failed, no_fuel, write_all}
use magicrescue.Textextract.{Options, dir_forward, Entry, Scores, scores_init, inspect_all}

-- `s`, the buffer, and the states of the two descriptors.
pub record Text (W V : Type 0) : Type 0 where
  pub scores : Scores
  pub kept : List ℕ
  pub input : W
  pub output : V

-- `return 0` and the two places that return -1; the last stands for a loop that has not ended.
pub data Exit : Type 0 where
  finished internal_error write_error out_of_fuel : Exit

module _ {W V : Type 0} (dev : Device W) (sink : Sink V) (opt : Options) (lut : ℕ → Entry)
    (bufsize : ℕ) where
  -- The buffer is full: write what stands in front of the last letter, and move the rest there.
  unfoldable pub after_flush :
      (Text W V → Exit × Text W V) → Text W V → ℕ → Wrote × V → Exit × Text W V
  after_flush next t q (wrote, v) =
      if q == 0
      then (write_error, record t { output = v })
      else next (record t {
        scores = record t.scores { last_letter = none };
        kept = drop q t.kept;
        output = v;
      })
  after_flush next t q (write_failed, v) = (write_error, record t { output = v })
  after_flush next t q (no_fuel, v) = (out_of_fuel, record t { output = v })

  unfoldable pub flush : (Text W V → Exit × Text W V) → Text W V → Exit × Text W V
  unfolding after_flush
  flush next t = elim t.scores.last_letter [
    | none ↦ (internal_error, t)
    | some q ↦ after_flush next t q (write_all sink (take q t.kept) t.output)
  ]

  -- What follows the loop over the characters that were read.
  unfoldable pub after_inspect :
      (Text W V → Exit × Text W V) → Text W V → List ℕ → Scores × Bool → Exit × Text W V
  unfolding flush
  after_inspect next t bs (s, true) = (finished, record t { scores = s; kept = t.kept ++ bs })
  after_inspect next t bs (s, false) =
      let t' = record t { scores = s; kept = t.kept ++ bs } in
      if length (t.kept ++ bs) == bufsize then flush next t' else next t'

  unfoldable pub after_read :
      (Text W V → Exit × Text W V) → Text W V → Option (List ℕ) → Exit × Text W V
  unfolding after_inspect
  after_read next t none = (finished, t)
  after_read next t (some []) = (finished, t)
  after_read next t (some (b ∷ bs)) =
      after_inspect next t (b ∷ bs)
        (inspect_all opt dir_forward lut t.scores (length t.kept) (b ∷ bs))

  -- The loop of `read_forward`, on fuel for its reads.
  unfoldable pub read_loop : ℕ → Text W V → Exit × Text W V
  unfolding after_read
  read_loop zero t = (out_of_fuel, t)
  read_loop (suc fuel) t =
      let (bs, w) = dev.read (bufsize - length t.kept) t.input in
      after_read (read_loop fuel) (record t { input = w }) bs

  -- A read returns a byte at least, so one for each byte of the file, and one more, are enough fuel.
  unfoldable pub read_forward : Scores → W → V → Exit × Text W V
  unfolding read_loop
  read_forward s w v =
      read_loop (suc dev.size) (record { scores = s; kept = []; input = w; output = v })

  -- The end of `do_textextract`: the text up to its last letter, that included.
  unfoldable pub write_rest : Exit × Text W V → Exit × Text W V
  write_rest (finished, t) = elim t.scores.last_letter [
    | none ↦ (finished, t)
    | some q ↦ (finished, record t { output = (write_all sink (take (q + 1) t.kept) t.output).1 })
  ]
  write_rest (internal_error, t) = (internal_error, t)
  write_rest (write_error, t) = (write_error, t)
  write_rest (out_of_fuel, t) = (out_of_fuel, t)

  unfoldable pub extract_forward : Option ℕ → W → V → Exit × Text W V
  unfolding read_forward write_rest
  extract_forward offset w v = write_rest (read_forward (scores_init offset) w v)
