-- ===== src/Textextract/Backward.antt =====
-- `read_backward` of tools/textextract.c, and `do_textextract`, which calls it first if it has to find
-- the start of a text.
use magicrescue.Base.{
  ℕ, ◌-◌, Bool, true, false, Option, none, some, List, [], ◌∷◌, ltb, ◌==◌, if◌then◌else◌, length,
  drop, reverse,
}
use magicrescue.Device.{Device}
use magicrescue.Sink.{Sink, write_all}
use magicrescue.Textextract.{
  Options, Direction, dir_forward, dir_reverse, Entry, Scores, scores_init, inspect_char,
  unless_stop,
}
use magicrescue.Textextract.Forward.{Exit, extract_forward}

-- What `read_backward` leaves: whether it returned 0, and the states.
pub record Back (W V : Type 0) : Type 0 where
  pub ok : Bool
  pub scores : Scores
  pub input : W
  pub output : V

module _ {W V : Type 0} (dev : Device W) (sink : Sink V) (opt : Options) (lut : ℕ → Entry)
    (bufsize : ℕ) (max_reverse : ℕ) where
  unfoldable pub back_count : ℕ → ℕ
  back_count offset =
      let n = if ltb offset bufsize then offset else bufsize in
      if ltb max_reverse n then max_reverse else n

  -- The loop from the last character down to the first; the list is the buffer in reverse.
  unfoldable pub inspect_down : Scores → List ℕ → Scores × Bool
  inspect_down s [] = (s, false)
  inspect_down s (c ∷ cs) =
      unless_stop opt dir_reverse lut (λ s'. inspect_down s' cs)
        (inspect_char opt dir_reverse lut s (length cs) c)

  unfoldable pub back_write : List ℕ → W → V → Scores × Bool → Back W V
  back_write bs w v (s, true) = record {
    ok = true;
    scores = s;
    input = w;
    output = elim s.last_letter [ none ↦ v | some q ↦ (write_all sink (drop q bs) v).1 ];
  }
  back_write bs w v (s, false) = record {
    ok = true;
    scores = s;
    input = w;
    output = (write_all sink bs v).1;
  }

  unfoldable pub back_got : ℕ → Scores → W → V → Option (List ℕ) → Back W V
  unfolding back_write inspect_down
  back_got n s w v none = record { ok = false; scores = s; input = w; output = v }
  back_got n s w v (some bs) =
      if length bs == n
      then back_write bs w v (inspect_down s (reverse bs))
      else record { ok = false; scores = s; input = w; output = v }

  unfoldable pub back_read : ℕ → Scores → W → V → Back W V
  unfolding back_got
  back_read n s w v = elim (dev.seek (dev.position w - n) w) [
    | none ↦ record { ok = false; scores = s; input = w; output = v }
    | some u ↦ let (bs, u') = dev.read n u in back_got n s u' v bs
  ]

  unfoldable pub read_backward : Scores → W → V → Back W V
  unfolding back_read back_count
  read_backward s w v = elim s.counters.offset [
    | none ↦ record { ok = true; scores = s; input = w; output = v }
    | some offset ↦
        if offset == 0
        then record { ok = true; scores = s; input = w; output = v }
        else back_read (back_count offset) s w v
  ]

  -- The part that follows on `read_backward`; `none` is the `return` after an error of it.
  unfoldable pub after_backward : Back W V → Option Exit × V
  after_backward b =
      if b.ok
      then (let (e, t) =
            extract_forward dev sink opt lut bufsize b.scores.counters.offset b.input b.output in
          (some e, t.output))
      else (none, b.output)

  -- `offset` is what `lseek (0, 0, SEEK_CUR)` returns, and none for -1.
  unfoldable pub do_textextract : Direction → Option ℕ → W → V → Option Exit × V
  unfolding read_backward after_backward
  do_textextract dir_forward offset w v =
      let (e, t) = extract_forward dev sink opt lut bufsize offset w v in (some e, t.output)
  do_textextract dir_reverse offset w v = after_backward (read_backward (scores_init offset) w v)
