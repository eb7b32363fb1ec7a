-- ===== src/Textextract/Around.antt =====
-- The piece of its input that `do_textextract` of tools/textextract.c writes when it reads both ways.
use mathlib.Core.List.{append_assoc}
use mathlib.Core.Option.{some-injective}
use magicrescue.Base.{
  ℕ, ◌+◌, ◌-◌, ◌≤◌, ◌<◌, ◌≡◌, ◌≢◌, ◌⊎◌, sym, ap, ◌∙◌, Option, none, some, List, ◌++◌, arith,
  Bool-cases, inl, inr,
}
use magicrescue.Memory.Slice.{bytes_from, bytes_from_append}
use magicrescue.Device.{Device}
use magicrescue.Sink.{Sink}
use magicrescue.Textextract.{Options, Direction, dir_forward, dir_reverse, Entry, scores_init}
use magicrescue.Textextract.Forward.{Exit, out_of_fuel}
use magicrescue.Textextract.Written.{extract_forward-IsPiece}
use magicrescue.Textextract.Backward.{Back, read_backward, after_backward, do_textextract}
use magicrescue.Textextract.Back.{IsBack, read_backward-IsBack}

module _ {W V : Type 0} (dev : Device W) (sink : Sink V) (opt : Options) (lut : ℕ → Entry)
    (bufsize : ℕ) (max_reverse : ℕ)
    (reliable : (bs : List ℕ) (u : V) → (sink.write bs u).0 ≢ none) where
  -- A piece of the file around the position where the program started, and the loops have ended.
  abbrev pub IsAround : W → V → Option Exit × V → Type 0
  IsAround w v (e, v') =
      (e ≢ some out_of_fuel)
      × ((k : ℕ) × (n : ℕ) × (k ≤ dev.position w)
          × (sink.written v'
              ≡ sink.written v ++ bytes_from dev.content (dev.position w - k) (k + n)))

  after_backward-IsAround :
      (w : W) (v : V) (b : Back W V)
      → 0 < bufsize
      → IsBack dev sink opt lut bufsize max_reverse reliable (dev.position w) v b
      → IsAround w v (after_backward dev sink opt lut bufsize max_reverse b)
  unfolding after_backward
  after_backward-IsAround w v b pos ((k, le, out), at) = elim (Bool-cases b.ok) [
    | inl e ↦
        let (ends, (n, piece)) =
          extract_forward-IsPiece dev sink opt lut bufsize b.scores.counters.offset b.input b.output
            pos in
        let start : dev.position b.input ≡ dev.position w - k + k = at e ∙ omega arith in
        rw (e, after_backward, IsAround)
          (
            (λ x. ends (some-injective _ _ x)),
            (
              k,
              n,
              le,
              piece
                  ∙ ap (λ t. t ++ bytes_from dev.content (dev.position b.input) n) out
                  ∙ append_assoc (sink.written v) (bytes_from dev.content (dev.position w - k) k)
                      (bytes_from dev.content (dev.position b.input) n)
                  ∙ ap (λ t. sink.written v ++ t)
                      (ap
                          (λ x.
                            bytes_from dev.content (dev.position w - k) k
                            ++ bytes_from dev.content x n)
                          start
                        ∙ bytes_from_append dev.content (dev.position w - k) k n),
            ),
          )
    | inr e ↦
        let z : k + 0 ≡ k = omega arith in
        rw (e, after_backward, IsAround)
          (
            (λ x. cc),
            (
              k,
              0,
              le,
              out
                  ∙ ap (λ j. sink.written v ++ bytes_from dev.content (dev.position w - k) j)
                      (sym z),
            ),
          )
  ]

  -- If no write fails, what `textextract` writes is one piece of its input without a gap, on every
  -- path through it: when it reads both ways, the part before the place where it started and the part
  -- from there on meet there. The offset is the one at which the input stands, or none if it has none,
  -- and the buffer is not empty.
  pub do_textextract_piece :
      (dir : Direction) (offset : Option ℕ) (w : W) (v : V)
      → 0 < bufsize
      → (offset ≡ none) ⊎ (offset ≡ some (dev.position w))
      → IsAround w v (do_textextract dev sink opt lut bufsize max_reverse dir offset w v)
  unfolding do_textextract
  do_textextract_piece dir_forward offset w v pos h =
      let (ends, (n, piece)) = extract_forward-IsPiece dev sink opt lut bufsize offset w v pos in
      let z : 0 + n ≡ n = omega arith in
      let z' : dev.position w - 0 ≡ dev.position w = omega arith in
      (
        (λ x. ends (some-injective _ _ x)),
        (
          0,
          n,
          omega arith,
          piece
              ∙ ap (λ j. sink.written v ++ bytes_from dev.content (dev.position w) j) (sym z)
              ∙ ap (λ j. sink.written v ++ bytes_from dev.content j (0 + n)) (sym z'),
        ),
      )
  do_textextract_piece dir_reverse offset w v pos h =
      after_backward-IsAround w v
        (read_backward dev sink opt lut bufsize max_reverse (scores_init offset) w v) pos
        (read_backward-IsBack dev sink opt lut bufsize max_reverse reliable offset w v h)
