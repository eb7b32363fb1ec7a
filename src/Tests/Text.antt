-- ===== src/Tests/Text.antt =====
-- Runs of `textextract` on a small file.
use magicrescue.Base.{
  ℕ, min, ◌≡◌, ◌≢◌, refl, ap, inr, Option, none, some, List, [], ◌∷◌, ◌++◌, length, take, get_or,
  arith,
}
use magicrescue.Base.Int.{ℤ, pos}
use magicrescue.Memory.Slice.{bytes_from}
use magicrescue.Device.{Device}
use magicrescue.Sink.{Sink, wrote, write_all, IsWritten, write_all-IsWritten}
use magicrescue.Parse.Scanf.{codes}
use magicrescue.Textextract.{Options, Direction, dir_forward, dir_reverse}
use magicrescue.Textextract.Rules.{lut}
use magicrescue.Textextract.Forward.{finished, extract_forward}
use magicrescue.Textextract.Written.{IsText, extract_forward-IsText}
use magicrescue.Textextract.Backward.{do_textextract}
use magicrescue.Textextract.Main.{IsWindow, textextract, textextract_piece}
use magicrescue.Tests.Concrete.{file_device}

pub some_count : (m n : ℕ) → some m ≡ some n → m ≡ n
some_count m n e = cc

-- A pipe that takes two bytes at a time.
abbrev pub pipe : Sink (List ℕ)
pipe = record {
  written = λ v. v;
  write = λ bs v. (some (min 2 (length bs)), v ++ take (min 2 (length bs)) bs);
  write_count = λ bs v n e. omega (arith, some_count (min 2 (length bs)) n e);
  write_some = λ bs v n h e. omega (arith, some_count (min 2 (length bs)) n e);
  write_bytes = λ bs v n e. ap (λ k. v ++ take k bs) (some_count (min 2 (length bs)) n e);
  write_fails = λ bs v e. absurd cc;
}

pipe_takes : (bs v : List ℕ) → (pipe.write bs v).0 ≢ none
pipe_takes bs v = λ e. cc

-- A text that ends at a byte 0.
abbrev memo : ℕ → ℕ
memo i = get_or (codes "Dear all," ++ 10 ∷ 0 ∷ 0 ∷ codes "xx") i 0

abbrev memo_device : Device ℕ
memo_device = file_device memo 14

abbrev default_options : Options
default_options = record {
  max_score = pos 9;
  block_score = pos 5;
  max_line = pos 400;
  max_bytes = pos 0;
}

write_all_run : write_all pipe (codes "abc") (codes "x") ≡ (wrote, codes "xabc")
unfolding write_all
write_all_run = refl

write_all-IsWritten_example :
    IsWritten pipe (codes "abc") (codes "x") (write_all pipe (codes "abc") (codes "x"))
write_all-IsWritten_example = write_all-IsWritten pipe (codes "abc") (codes "x")

extract_forward_run :
    (extract_forward memo_device pipe default_options lut 5 (some 0) 0 []).1.output
    ≡ codes "Dear all," ++ 10 ∷ []
unfolding extract_forward bytes_from magicrescue.Textextract.inspect_all
    magicrescue.Textextract.inspect_char lut magicrescue.Textextract.scores_init write_all
extract_forward_run = refl

extract_forward-IsText_example :
    IsText memo_device pipe default_options lut 5
      (some 0)
      0
      []
      (extract_forward memo_device pipe default_options lut 5 (some 0) 0 [])
extract_forward-IsText_example =
    extract_forward-IsText memo_device pipe default_options lut 5 (some 0) 0 [] (omega arith)
      pipe_takes

do_textextract_run :
    (do_textextract memo_device pipe default_options lut 5 3 dir_reverse (some 4) 4 []).1
    ≡ codes "ear all," ++ 10 ∷ []
unfolding do_textextract magicrescue.Textextract.scores_init bytes_from
    magicrescue.Textextract.inspect_char lut extract_forward magicrescue.Textextract.inspect_all
    write_all
do_textextract_run = refl

abbrev start_of : List ℕ → ℤ
start_of s = pos 3

abbrev no_file : List ℕ → Option (List ℕ)
no_file name = none

textextract_piece_example :
    IsWindow start_of start_of memo_device pipe no_file []
      (some 4)
      4
      []
      (some finished, codes "ear all," ++ 10 ∷ [])
unfolding textextract do_textextract magicrescue.Textextract.scores_init bytes_from
    magicrescue.Textextract.inspect_char lut extract_forward magicrescue.Textextract.inspect_all
    write_all magicrescue.Parse.Scanf.bytes_eq
textextract_piece_example =
    textextract_piece start_of start_of memo_device pipe no_file [] (some 4) 4
      ((b'r', codes "3") ∷ []) (codes "-" ∷ []) [] (some finished, codes "ear all," ++ 10 ∷ [])
      pipe_takes (inr refl) refl refl
