-- ===== src/Textextract/Buffer.antt =====
-- The buffer of `read_forward` in tools/textextract.c, against its input.
use mathlib.Core.Path.{subst}
use mathlib.Core.List.{append_assoc}
use magicrescue.Base.{
  ℕ, zero, suc, ◌+◌, ◌-◌, ◌≤◌, ◌<◌, ◌≡◌, ◌⊎◌, refl, sym, ap, ◌∙◌, Bool, true, false, Option, none,
  some, List, [], ◌∷◌, ◌++◌, length, take, drop, length-drop, length-take, length-append, arith,
  ◌==◌, Bool-cases, Option-cases, inl, inr,
}
use magicrescue.Memory.Slice.{
  bytes_from, length-bytes_from, bytes_from_append, take-bytes_from, drop-bytes_from,
}
use magicrescue.Device.{Device}
use magicrescue.Sink.{
  Sink, Wrote, wrote, write_failed, no_fuel, write_all, IsWritten, write_all-IsWritten,
}
use magicrescue.Textextract.{Options, dir_forward, Entry, Scores, inspect_all}
use magicrescue.Textextract.Stream.{
  LastAt, Below, scores, inspect_all-Related, inspect_all-Below, inspect_all-append,
}
use magicrescue.Textextract.Forward.{
  Text, Exit, finished, internal_error, write_error, out_of_fuel, after_flush, flush,
}

pub letter_bound : (q : ℕ) (l : Option ℕ) (n : ℕ) → l ≡ some q → Below l n → q < n
letter_bound q l n e h = subst (λ l. Below l n) e h

LastAt-flush :
    (f q : ℕ) (l l' : Option ℕ)
    → l ≡ some q
    → (q == 0) ≡ false
    → LastAt f l l'
    → LastAt (f + q) none l'
LastAt-flush f q l none e z h = absurd (subst (λ l. LastAt f l none) e h)
LastAt-flush f q l (some x) e z h =
    let k : x ≡ f + q = subst (λ l. LastAt f l (some x)) e h in (ground arith, k)

LastAt-some : (f q : ℕ) (l l' : Option ℕ) → l ≡ some q → LastAt f l l' → l' ≡ some (f + q)
LastAt-some f q l none e h = absurd (subst (λ l. LastAt f l none) e h)
LastAt-some f q l (some x) e h =
    let k : x ≡ f + q = subst (λ l. LastAt f l (some x)) e h in ap some k

pub take-take : (k q : ℕ) (bs : List ℕ) → k ≤ q → take k (take q bs) ≡ take k bs
take-take zero q bs h = refl
take-take (suc k) zero bs h = absurd (omega arith)
take-take (suc k) (suc q) [] h = refl
take-take (suc k) (suc q) (b ∷ bs) h = ap (λ t. b ∷ t) (take-take k q bs (omega arith))

module _ {W V : Type 0} (dev : Device W) (sink : Sink V) (opt : Options) (lut : ℕ → Entry)
    (bufsize : ℕ) (start : ℕ) (base : List ℕ) (first : Scores) where
  -- The file inspected as a whole, its first `n` bytes from the start.
  abbrev pub scan : ℕ → Scores × Bool
  scan n = inspect_all opt dir_forward lut first 0 (bytes_from dev.content start n)

  -- The buffer holds the bytes from `f` on, and all in front of it is written.
  pub record Copies (f : ℕ) (t : Text W V) : Type 0 where
    pub out : sink.written t.output ≡ base ++ bytes_from dev.content start f
    pub same : t.kept ≡ bytes_from dev.content (start + f) (length t.kept)

  -- The places in front of which a full buffer is written: the last letter of `bufsize` bytes that are
  -- inspected from the place before on, or from the start, if the text goes on there and that letter is
  -- not the first of these bytes.
  pub data Cut : ℕ → Type 0 where
    from_start : Cut 0
    from_cut :
        (f e : ℕ)
        → Cut f
        → (scan (f + bufsize)).1 ≡ false
        → (scan (f + bufsize)).0.last_letter ≡ some e
        → f < e
        → Cut e

  -- The scores are those of the whole file up to here.
  pub record Scanned (stop : Bool) (f : ℕ) (t : Text W V) : Type 0 where
    pub copies : Copies f t
    pub cut : Cut f
    pub letter : Below t.scores.last_letter (length t.kept)
    pub last : Option ℕ
    pub whole : scan (f + length t.kept) ≡ (scores last t.scores.counters, stop)
    pub same_last : LastAt f t.scores.last_letter last

  -- What holds at the test of the loop, before the read.
  pub record Going (f : ℕ) (t : Text W V) : Type 0 where
    pub scanned : Scanned false f t
    pub at : dev.position t.input ≡ start + (f + length t.kept)
    pub room : length t.kept < bufsize

  -- A read of some bytes at `p` that returns none.
  abbrev pub NoMore : ℕ → Type 0
  NoMore p =
      (w : W) × (n : ℕ) × (dev.position w ≡ p)
      × (0 < n)
      × (((dev.read n w).0 ≡ none) ⊎ ((dev.read n w).0 ≡ some []))

  -- What is known at the end of the loop.
  abbrev pub Ended : Exit × Text W V → Type 0
  Ended (finished, t) =
      (stop : Bool) × (f : ℕ) × Scanned stop f t
      × ((stop ≡ true) ⊎ NoMore (start + (f + length t.kept)))
  Ended (internal_error, t) = (f : ℕ) × Copies f t
  Ended (write_error, t) =
      (n : ℕ) × (sink.written t.output ≡ base ++ bytes_from dev.content start n)
  Ended (out_of_fuel, t) = ⊥

  -- A piece of the buffer, written behind what is there.
  pub out-take :
      (f q : ℕ) (t : Text W V) (v : V)
      → Copies f t
      → q ≤ length t.kept
      → sink.written v ≡ sink.written t.output ++ take q t.kept
      → sink.written v ≡ base ++ bytes_from dev.content start (f + q)
  out-take f q t v c h e =
      e
      ∙ ap (λ x. x ++ take q t.kept) c.out
      ∙ append_assoc base (bytes_from dev.content start f) (take q t.kept)
      ∙ ap (λ x. base ++ x)
          (ap (λ x. bytes_from dev.content start f ++ x)
              (ap (take q) c.same ∙ take-bytes_from dev.content (start + f) q (length t.kept) h)
            ∙ bytes_from_append dev.content start f q)

  dropped :
      (f q : ℕ) (t : Text W V)
      → Copies f t
      → q ≤ length t.kept
      → drop q t.kept ≡ bytes_from dev.content (start + (f + q)) (length (drop q t.kept))
  dropped f q t c h =
      ap (drop q) c.same
      ∙ drop-bytes_from dev.content (start + f) q (length t.kept) h
      ∙ ap (λ p. bytes_from dev.content p (length t.kept - q)) (omega arith)
      ∙ ap (bytes_from dev.content (start + (f + q))) (sym (length-drop q t.kept))

  -- A full buffer is written up to its last letter `q`.
  flush-Cut :
      (f q : ℕ) (t : Text W V)
      → t.scores.last_letter ≡ some q
      → (q == 0) ≡ false
      → length t.kept ≡ bufsize
      → Scanned false f t
      → Cut (f + q)
  flush-Cut f q t e z full sc =
      let whole : scan (f + bufsize) ≡ (scores sc.last t.scores.counters, false) =
        ap (λ n. scan (f + n)) (sym full) ∙ sc.whole in
      from_cut f (f + q) sc.cut (ap (λ r. r.1) whole)
        (ap (λ r. r.0.last_letter) whole
          ∙ LastAt-some f q t.scores.last_letter sc.last e sc.same_last)
        (ground arith)

  after_flush-Ended :
      (next : Text W V → Exit × Text W V) (f q : ℕ) (t : Text W V) (p : Wrote × V)
      → ((f' : ℕ) (t' : Text W V)
          → dev.position t'.input ≡ dev.position t.input
          → Going f' t'
          → Ended (next t'))
      → t.scores.last_letter ≡ some q
      → Scanned false f t
      → dev.position t.input ≡ start + (f + length t.kept)
      → length t.kept ≡ bufsize
      → IsWritten sink (take q t.kept) t.output p
      → Ended (after_flush dev sink opt lut bufsize next t q p)
  unfolding after_flush
  after_flush-Ended next f q t (wrote, v) ih e sc at small w =
      let le = letter_bound q t.scores.last_letter (length t.kept) e sc.letter in
      let out = out-take f q t v sc.copies (omega arith) w in
      elim (Bool-cases (q == 0)) [
        | inl none_written ↦ rw (none_written) ((f + q, out))
        | inr some_written ↦ rw (some_written) (
            ih (f + q)
              (record t {
                scores = record t.scores { last_letter = none };
                kept = drop q t.kept;
                output = v;
              })
              refl
              (record {
                scanned = record {
                  copies = record { out = out; same = dropped f q t sc.copies (omega arith) };
                  cut = flush-Cut f q t e some_written small sc;
                  letter = tt;
                  last = sc.last;
                  whole = ap scan (omega (arith, length-drop q t.kept)) ∙ sc.whole;
                  same_last =
                      LastAt-flush f q t.scores.last_letter sc.last e some_written sc.same_last;
                };
                at = omega (arith, at, length-drop q t.kept);
                room = ground (arith, length-drop q t.kept, some_written);
              }))
      ]
  after_flush-Ended next f q t (write_failed, v) ih e sc at small (k, h, w) =
      let le = letter_bound q t.scores.last_letter (length t.kept) e sc.letter in
      let short : k ≤ q = omega (arith, length-take q t.kept) in
      (
        f + k,
        out-take f k t v sc.copies (omega arith)
            (w ∙ ap (λ x. sink.written t.output ++ x) (take-take k q t.kept short)),
      )
  after_flush-Ended next f q t (no_fuel, v) ih e sc at small w = w

  pub flush-Ended :
      (next : Text W V → Exit × Text W V) (f : ℕ) (t : Text W V)
      → ((f' : ℕ) (t' : Text W V)
          → dev.position t'.input ≡ dev.position t.input
          → Going f' t'
          → Ended (next t'))
      → Scanned false f t
      → dev.position t.input ≡ start + (f + length t.kept)
      → length t.kept ≡ bufsize
      → Ended (flush dev sink opt lut bufsize next t)
  unfolding flush
  flush-Ended next f t ih sc at small = elim (Option-cases t.scores.last_letter) [
    | inl e ↦ rw (e, flush, Ended) (f, sc.copies)
    | inr (q, e) ↦
        rw (e, flush)
          (after_flush-Ended next f q t (write_all sink (take q t.kept) t.output) ih e sc at small
            (write_all-IsWritten sink (take q t.kept) t.output))
  ]

  appended :
      (f n : ℕ) (xs bs : List ℕ)
      → xs ≡ bytes_from dev.content (start + f) (length xs)
      → bs ≡ bytes_from dev.content (start + (f + length xs)) (length bs)
      → xs ++ bs ≡ bytes_from dev.content (start + f) (length (xs ++ bs))
  appended f n xs bs h k =
      ap (λ t. t ++ bs) h
      ∙ ap (λ t. bytes_from dev.content (start + f) (length xs) ++ t)
          (k ∙ ap (λ p. bytes_from dev.content p (length bs)) (omega arith))
      ∙ bytes_from_append dev.content (start + f) (length xs) (length bs)
      ∙ ap (bytes_from dev.content (start + f)) (sym (length-append xs bs))

  scan-append :
      (m : ℕ) (u : Scores) (bs : List ℕ)
      → scan m ≡ (u, false)
      → bs ≡ bytes_from dev.content (start + m) (length bs)
      → scan (m + length bs) ≡ inspect_all opt dir_forward lut u m bs
  scan-append m u bs h e =
      ap (inspect_all opt dir_forward lut first 0) (
        sym (bytes_from_append dev.content start m (length bs))
        ∙ ap (λ t. bytes_from dev.content start m ++ t) (sym e))
      ∙ inspect_all-append opt dir_forward lut first u 0 (bytes_from dev.content start m) bs h
      ∙ ap (λ p. inspect_all opt dir_forward lut u p bs)
          (omega (arith, length-bytes_from dev.content start m))

  -- The state after a read and the loop over its characters.
  pub inspected :
      (f : ℕ) (t : Text W V) (w : W) (bs : List ℕ)
      → Scanned false f t
      → bs ≡ bytes_from dev.content (dev.position t.input) (length bs)
      → dev.position t.input ≡ start + (f + length t.kept)
      → let r = inspect_all opt dir_forward lut t.scores (length t.kept) bs in
        Scanned r.1 f (record t { scores = r.0; kept = t.kept ++ bs; input = w })
  inspected f t w bs sc e at =
      let n = length t.kept in
      let k = t.scores.counters in
      let r = inspect_all opt dir_forward lut t.scores n bs in
      let r' = inspect_all opt dir_forward lut (scores sc.last k) (f + n) bs in
      let rel =
        inspect_all-Related opt dir_forward lut f n t.scores.last_letter sc.last k bs
          sc.same_last in
      let here : bs ≡ bytes_from dev.content (start + (f + n)) (length bs) =
        e ∙ ap (λ p. bytes_from dev.content p (length bs)) at in
      record {
        copies = record { out = sc.copies.out; same = appended f n t.kept bs sc.copies.same here };
        cut = sc.cut;
        letter =
            subst (Below r.0.last_letter) (sym (length-append t.kept bs))
              (inspect_all-Below opt dir_forward lut n t.scores.last_letter k bs sc.letter);
        last = r'.0.last_letter;
        whole =
            ap scan (omega (arith, length-append t.kept bs))
            ∙ scan-append (f + n) (scores sc.last k) bs sc.whole here
            ∙ ap (λ c. (scores r'.0.last_letter c, r'.1)) (sym rel.1)
            ∙ ap (λ b. (scores r'.0.last_letter r.0.counters, b)) (sym rel.0);
        same_last = rel.2;
      }
