-- ===== src/Textextract/Written.antt =====
-- What `do_textextract` of tools/textextract.c has written when it has read forward.
use mathlib.Core.Path.{subst}
use mathlib.Core.List.{append-nil}
use magicrescue.Base.{
  ℕ, suc, ◌+◌, ◌<◌, ◌≡◌, ◌≢◌, ◌⊎◌, refl, sym, ap, ◌∙◌, Bool, true, Option, none, some, List, [],
  ◌++◌, length, take, length-take, arith, Option-cases, inl, inr,
}
use magicrescue.Memory.Slice.{bytes_from}
use magicrescue.Device.{Device}
use magicrescue.Sink.{Sink, write_all, write_all-reliable, write_all_some}
use magicrescue.Textextract.{Options, Entry, scores_init, inspect_all}
use magicrescue.Textextract.Stream.{LastAt}
use magicrescue.Textextract.Forward.{
  Text, Exit, finished, internal_error, write_error, out_of_fuel, read_forward, write_rest,
  extract_forward,
}
use magicrescue.Textextract.Buffer.{
  Cut, from_start, Scanned, Going, Ended, NoMore, scan, out-take, letter_bound, take-take,
}
use magicrescue.Textextract.Copy.{read_loop-Ended}

module _ {W V : Type 0} (dev : Device W) (sink : Sink V) (opt : Options) (lut : ℕ → Entry)
    (bufsize : ℕ) (offset : Option ℕ) (w : W) (v : V) where
  abbrev start : ℕ
  start = dev.position w

  -- A piece of the file from the start on stands behind what was written before.
  abbrev pub IsPiece : ℕ → Text W V → Type 0
  IsPiece n t = sink.written t.output ≡ sink.written v ++ bytes_from dev.content (dev.position w) n

  first-Going :
      0 < bufsize
      → Going dev sink opt lut bufsize
          (dev.position w)
          (sink.written v)
          (scores_init offset)
          0
          (record { scores = scores_init offset; kept = []; input = w; output = v })
  unfolding scores_init inspect_all bytes_from
  first-Going h = record {
    scanned = record {
      copies = record { out = sym (append-nil (sink.written v)); same = refl };
      cut = from_start;
      letter = tt;
      last = none;
      whole = refl;
      same_last = refl;
    };
    at = omega arith;
    room = h;
  }

  read_forward-Ended :
      0 < bufsize
      → Ended dev sink opt lut bufsize
          (dev.position w)
          (sink.written v)
          (scores_init offset)
          (read_forward dev sink opt lut bufsize (scores_init offset) w v)
  unfolding read_forward
  read_forward-Ended h =
      read_loop-Ended dev sink opt lut bufsize (dev.position w) (sink.written v)
        (scores_init offset) (suc dev.size) 0
        (record { scores = scores_init offset; kept = []; input = w; output = v }) (omega arith)
        (omega arith) (first-Going h)

  write_rest-IsPiece :
      (p : Exit × Text W V)
      → Ended dev sink opt lut bufsize (dev.position w) (sink.written v) (scores_init offset) p
      → ((write_rest dev sink opt lut bufsize p).0 ≢ out_of_fuel)
        × ((n : ℕ) × IsPiece n (write_rest dev sink opt lut bufsize p).1)
  unfolding write_rest
  write_rest-IsPiece (finished, t) (stop, f, sc, more) = elim (Option-cases t.scores.last_letter) [
    | inl e ↦ rw (e, write_rest) ((λ z. cc), (f, sc.copies.out))
    | inr (q, e) ↦
        let (k, le, out) = write_all_some sink (take (q + 1) t.kept) t.output in
        let below = letter_bound q t.scores.last_letter (length t.kept) e sc.letter in
        rw (e, write_rest)
          (
            (λ z. cc),
            (
              f + k,
              out-take dev sink opt lut bufsize (dev.position w) (sink.written v)
                  (scores_init offset) f k t (write_all sink (take (q + 1) t.kept) t.output).1
                  sc.copies (omega (arith, length-take (q + 1) t.kept))
                  (out
                    ∙ ap (λ x. sink.written t.output ++ x)
                        (take-take k (q + 1) t.kept (omega (arith, length-take (q + 1) t.kept)))),
            ),
          )
  ]
  write_rest-IsPiece (internal_error, t) (f, c) = ((λ z. cc), (f, c.out))
  write_rest-IsPiece (write_error, t) (n, out) = ((λ z. cc), (n, out))
  write_rest-IsPiece (out_of_fuel, t) h = absurd h

  -- On every input, with every way that reads and writes go, `textextract` ends when it reads forward,
  -- and what it has written is a piece of its input from the start on. The buffer is not empty.
  pub extract_forward-IsPiece :
      0 < bufsize
      → ((extract_forward dev sink opt lut bufsize offset w v).0 ≢ out_of_fuel)
        × ((n : ℕ) × IsPiece n (extract_forward dev sink opt lut bufsize offset w v).1)
  unfolding extract_forward
  extract_forward-IsPiece h =
      write_rest-IsPiece (read_forward dev sink opt lut bufsize (scores_init offset) w v)
        (read_forward-Ended h)

  -- The bytes of a text whose last letter is known are those up to it, that letter included; only where
  -- a full buffer is written in front of the letter it may be missing.
  abbrev pub IsTextLength : ℕ → Option ℕ → Type 0
  IsTextLength n none = n ≡ 0
  IsTextLength n (some e) =
      (n ≡ e + 1)
      ⊎ ((n ≡ e)
          × (0 < e)
          × Cut dev sink opt lut bufsize (dev.position w) (sink.written v) (scores_init offset) e)

  IsTextLength-letter :
      (f q : ℕ) (l l' : Option ℕ) → l ≡ some q → LastAt f l l' → IsTextLength (f + (q + 1)) l'
  IsTextLength-letter f q l none e h = absurd (subst (λ l. LastAt f l none) e h)
  IsTextLength-letter f q l (some x) e h =
      let k : x ≡ f + q = subst (λ l. LastAt f l (some x)) e h in inl (omega arith)

  IsTextLength-none :
      (f : ℕ) (l l' : Option ℕ)
      → Cut dev sink opt lut bufsize (dev.position w) (sink.written v) (scores_init offset) f
      → l ≡ none
      → LastAt f l l'
      → IsTextLength f l'
  IsTextLength-none f l none cut e h = subst (λ l. LastAt f l none) e h
  IsTextLength-none f l (some x) cut e h =
      let k = subst (λ l. LastAt f l (some x)) e h in
      inr (
        sym k.1,
        omega (arith, k.0, k.1),
        subst (Cut dev sink opt lut bufsize (dev.position w) (sink.written v) (scores_init offset))
            (sym k.1) cut,
      )

  -- The text that the inspection of the whole input finds.
  abbrev pub IsText : Exit × Text W V → Type 0
  IsText (finished, t) =
      (m : ℕ) × (n : ℕ) × IsPiece n t
      × IsTextLength n
          (scan dev sink opt lut bufsize (dev.position w) (sink.written v) (scores_init offset)
            m).0.last_letter
      × (((scan dev sink opt lut bufsize (dev.position w) (sink.written v) (scores_init offset) m).1
            ≡ true)
          ⊎ NoMore dev sink opt lut bufsize (dev.position w) (sink.written v) (scores_init offset)
              (dev.position w + m))
  IsText (internal_error, t) = Unit
  IsText (write_error, t) = Unit
  IsText (out_of_fuel, t) = ⊥

  at_end :
      (f : ℕ) (t : Text W V) (stop : Bool)
      → Scanned dev sink opt lut bufsize
          (dev.position w)
          (sink.written v)
          (scores_init offset)
          stop
          f
          t
      → ((stop ≡ true)
          ⊎ NoMore dev sink opt lut bufsize
              (dev.position w)
              (sink.written v)
              (scores_init offset)
              (dev.position w + (f + length t.kept)))
      → ((scan dev sink opt lut bufsize
            (dev.position w)
            (sink.written v)
            (scores_init offset)
            (f + length t.kept)).1
          ≡ true)
        ⊎ NoMore dev sink opt lut bufsize
            (dev.position w)
            (sink.written v)
            (scores_init offset)
            (dev.position w + (f + length t.kept))
  at_end f t stop sc (inl e) = inl (ap (λ r. r.1) sc.whole ∙ e)
  at_end f t stop sc (inr more) = inr more

  write_rest-IsText :
      (p : Exit × Text W V)
      → ((bs : List ℕ) (u : V) → (sink.write bs u).0 ≢ none)
      → Ended dev sink opt lut bufsize (dev.position w) (sink.written v) (scores_init offset) p
      → IsText (write_rest dev sink opt lut bufsize p)
  unfolding write_rest
  write_rest-IsText (finished, t) reliable (stop, f, sc, more) =
      let stopped = at_end f t stop sc more in
      elim (Option-cases t.scores.last_letter) [
        | inl e ↦
            rw (e, write_rest, IsText)
              (
                f + length t.kept,
                f,
                sc.copies.out,
                subst (λ r. IsTextLength f r.0.last_letter) (sym sc.whole)
                    (IsTextLength-none f t.scores.last_letter sc.last sc.cut e sc.same_last),
                stopped,
              )
        | inr (q, e) ↦
            let below = letter_bound q t.scores.last_letter (length t.kept) e sc.letter in
            rw (e, write_rest, IsText)
              (
                f + length t.kept,
                f + (q + 1),
                out-take dev sink opt lut bufsize (dev.position w) (sink.written v)
                    (scores_init offset) f (q + 1) t
                    (write_all sink (take (q + 1) t.kept) t.output).1 sc.copies (omega arith)
                    (write_all-reliable sink reliable (take (q + 1) t.kept) t.output),
                subst (λ r. IsTextLength (f + (q + 1)) r.0.last_letter) (sym sc.whole)
                    (IsTextLength-letter f q t.scores.last_letter sc.last e sc.same_last),
                stopped,
              )
      ]
  write_rest-IsText (internal_error, t) reliable h = tt
  write_rest-IsText (write_error, t) reliable h = tt
  write_rest-IsText (out_of_fuel, t) reliable h = absurd h

  -- If no write fails and `textextract` reports no error, its output is the text that an inspection of
  -- the input as a whole finds, however reads and flushes cut it: the bytes up to the last letter in
  -- front of the end of the text, or of the input, that letter included, but for one case: the letter can
  -- only be missing if it is one in front of which a full buffer is written, and which those are the
  -- inspection of the whole input says. The buffer is not empty.
  pub extract_forward-IsText :
      0 < bufsize
      → ((bs : List ℕ) (u : V) → (sink.write bs u).0 ≢ none)
      → IsText (extract_forward dev sink opt lut bufsize offset w v)
  unfolding extract_forward
  extract_forward-IsText h reliable =
      write_rest-IsText (read_forward dev sink opt lut bufsize (scores_init offset) w v) reliable
        (read_forward-Ended h)
