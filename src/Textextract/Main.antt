-- ===== src/Textextract/Main.antt =====
-- `main` of tools/textextract.c. `getopt` has taken the options apart: each is its letter and its
-- argument, and they are followed by the other arguments.
use mathlib.Core.Path.{subst}
use magicrescue.Base.{
  ℕ, ◌+◌, ◌-◌, ◌≤◌, ◌≡◌, ◌≢◌, ◌⊎◌, Option, none, some, List, [], ◌∷◌, ◌++◌, ltb, ◌==◌,
  if◌then◌else◌, arith,
}
use magicrescue.Base.Int.{ℤ, pos, negsuc}
use magicrescue.Util.Size.{atol_calc}
use magicrescue.Parse.{Parsed, ok, failed, undefined, negative_offset, ◌>>=◌}
use magicrescue.Parse.Scanf.{bytes_eq}
use magicrescue.Memory.Slice.{bytes_from}
use magicrescue.Device.{Device}
use magicrescue.Sink.{Sink}
use magicrescue.Textextract.{Options, Direction, dir_forward, dir_reverse}
use magicrescue.Textextract.Rules.{lut}
use magicrescue.Textextract.Forward.{Exit, out_of_fuel}
use magicrescue.Textextract.Backward.{do_textextract}
use magicrescue.Textextract.Around.{do_textextract_piece}

-- The globals of the program.
pub record Globals : Type 0 where
  pub options : Options
  pub direction : Direction
  pub max_reverse : ℕ

abbrev pub defaults : Globals
defaults = record {
  options = record {
    max_score = pos 9;
    block_score = pos 5;
    max_line = pos 400;
    max_bytes = pos 0;
  };
  direction = dir_forward;
  max_reverse = 0;
}

-- `atoi` and `atol` are those of C.
module _ (atoi atol : List ℕ → ℤ) where
  abbrev with_max_bytes : Globals → Option ℤ → Parsed Globals
  with_max_bytes g none = undefined
  with_max_bytes g (some n) = ok (record g { options = record g.options { max_bytes = n } })

  abbrev with_max_reverse : Globals → ℤ → Parsed Globals
  with_max_reverse g (negsuc n) = failed
  with_max_reverse g (pos n) =
      if n == 0 then failed else ok (record g { max_reverse = n; direction = dir_reverse })

  unfoldable pub set_option : ℕ → List ℕ → Globals → Parsed Globals
  set_option c optarg g =
      if c == b'M'
      then with_max_bytes g (atol_calc atol optarg)
      else if c == b's'
      then ok (record g { options = record g.options { max_score = atoi optarg } })
      else if c == b'b'
      then ok (record g { options = record g.options { block_score = atoi optarg } })
      else if c == b'l'
      then ok (record g { options = record g.options { max_line = atoi optarg } })
      else if c == b'r'
      then with_max_reverse g (atoi optarg)
      else failed

  unfoldable pub parse_options : List (ℕ × List ℕ) → Globals → Parsed Globals
  unfolding set_option
  parse_options [] g = ok g
  parse_options ((c, optarg) ∷ rest) g = do g' ← set_option c optarg g; parse_options rest g'

  -- `bufsize` as `main` leaves it: the buffer holds what is read backwards.
  abbrev pub bufsize : Globals → ℕ
  bufsize g = if ltb 8192 g.max_reverse then g.max_reverse else 8192

  -- `open_output` opens the file for writing, and `output` is standard output; `offset` is what `lseek`
  -- says of the input.
  module _ {W V : Type 0} (dev : Device W) (sink : Sink V) (open_output : List ℕ → Option V)
      (output : V) (offset : Option ℕ) (w : W) where
    unfoldable pub open_file : List (List ℕ) → Parsed V
    open_file [] = failed
    open_file (file ∷ []) =
        if bytes_eq file (b'-' ∷ [])
        then ok output
        else elim (open_output file) [ none ↦ failed | some v ↦ ok v ]
    open_file (file ∷ other ∷ files) = failed

    unfoldable pub textextract : List (ℕ × List ℕ) → List (List ℕ) → Parsed (Option Exit × V)
    unfolding parse_options open_file
    textextract options args = do
      g ← parse_options options defaults
      v ← open_file args
      ok (do_textextract dev sink g.options lut (bufsize g) g.max_reverse g.direction offset w v)

    -- A piece of the input around the position at the start, and the loops have ended.
    abbrev pub IsWindow : V → Option Exit × V → Type 0
    IsWindow v r =
        (r.0 ≢ some out_of_fuel)
        × ((k : ℕ) × (n : ℕ) × (k ≤ dev.position w)
            × (sink.written r.1
                ≡ sink.written v ++ bytes_from dev.content (dev.position w - k) (k + n)))

    run-IsWindow :
        (p : Parsed Globals) (r : Option Exit × V) (v : V)
        → ((bs : List ℕ) (u : V) → (sink.write bs u).0 ≢ none)
        → (offset ≡ none) ⊎ (offset ≡ some (dev.position w))
        → (do
          g ← p
          ok (
              do_textextract dev sink g.options lut
                (bufsize g)
                g.max_reverse
                g.direction
                offset
                w
                v))
          ≡ ok r
        → IsWindow v r
    run-IsWindow (ok g) r v reliable at e =
        go (do_textextract dev sink g.options lut (bufsize g) g.max_reverse g.direction offset w v)
          e
          (do_textextract_piece dev sink g.options lut (bufsize g) g.max_reverse reliable
            g.direction offset w v (ground arith) at)
      where
        go : (x : Option Exit × V) → ok x ≡ ok r → IsWindow v x → IsWindow v r
        go x e h = let same : x ≡ r = cc in subst (λ y. IsWindow v y) same h
    run-IsWindow failed r v reliable at e = absurd cc
    run-IsWindow undefined r v reliable at e = absurd cc
    run-IsWindow negative_offset r v reliable at e = absurd cc

    -- Whatever options the program accepts, what it adds to the file that it has opened is one piece of
    -- its input, without a gap, around the place where the input stood, and it ends. No write fails, and
    -- the offset is that place, or none if the input has none.
    pub textextract_piece :
        (options : List (ℕ × List ℕ)) (args : List (List ℕ)) (v : V) (r : Option Exit × V)
        → ((bs : List ℕ) (u : V) → (sink.write bs u).0 ≢ none)
        → (offset ≡ none) ⊎ (offset ≡ some (dev.position w))
        → open_file args ≡ ok v
        → textextract options args ≡ ok r
        → IsWindow v r
    unfolding textextract
    textextract_piece options args v r reliable at opened e =
        run-IsWindow (parse_options options defaults) r v reliable at
          (rw (opened, textextract) at e)
