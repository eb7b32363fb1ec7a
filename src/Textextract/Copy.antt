-- ===== src/Textextract/Copy.antt =====
-- What tools/textextract.c writes when it reads forward: a piece of its input, and how long a one.
use magicrescue.Base.{
  ℕ, zero, suc, ◌+◌, ◌-◌, ◌≤◌, ◌<◌, ◌≡◌, refl, Bool, true, false, Option, none, some, List, [], ◌∷◌,
  ◌++◌, length, length-append, arith, ◌==◌, ==_iff, Bool-cases, inl, inr,
}
use magicrescue.Device.{Device}
use magicrescue.Device.Reads.{read-bytes_from}
use magicrescue.Sink.{Sink}
use magicrescue.Textextract.{Options, dir_forward, Entry, Scores, inspect_all}
use magicrescue.Textextract.Forward.{Text, Exit, after_inspect, after_read, read_loop}
use magicrescue.Textextract.Buffer.{Scanned, Going, Ended, flush-Ended, inspected}

module _ {W V : Type 0} (dev : Device W) (sink : Sink V) (opt : Options) (lut : ℕ → Entry)
    (bufsize : ℕ) (start : ℕ) (base : List ℕ) (first : Scores) where
  after_inspect-Ended :
      (next : Text W V → Exit × Text W V) (f : ℕ) (t : Text W V) (bs : List ℕ) (r : Scores × Bool)
      → ((f' : ℕ) (t' : Text W V)
          → dev.position t'.input ≡ dev.position t.input
          → Going dev sink opt lut bufsize start base first f' t'
          → Ended dev sink opt lut bufsize start base first (next t'))
      → Scanned dev sink opt lut bufsize start base first r.1 f
          (record t { scores = r.0; kept = t.kept ++ bs })
      → dev.position t.input ≡ start + (f + length (t.kept ++ bs))
      → length (t.kept ++ bs) ≤ bufsize
      → Ended dev sink opt lut bufsize start base first
          (after_inspect dev sink opt lut bufsize next t bs r)
  unfolding after_inspect
  after_inspect-Ended next f t bs (s, true) ih sc at small = (true, f, sc, inl refl)
  after_inspect-Ended next f t bs (s, false) ih sc at small =
      let t' : Text W V = record t { scores = s; kept = t.kept ++ bs } in
      elim (Bool-cases (length (t.kept ++ bs) == bufsize)) [
        | inl full ↦ rw (full) (
            flush-Ended dev sink opt lut bufsize start base first next f t' ih sc at
              ((==_iff (length (t.kept ++ bs)) bufsize).0 full))
        | inr room ↦
            rw (room) (ih f t' refl (record { scanned = sc; at = at; room = ground (arith, room) }))
      ]

  idle :
      (f : ℕ) (t : Text W V) (w : W)
      → Scanned dev sink opt lut bufsize start base first false f t
      → Scanned dev sink opt lut bufsize start base first false f (record t { input = w })
  idle f t w sc = record {
    copies = record { out = sc.copies.out; same = sc.copies.same };
    cut = sc.cut;
    letter = sc.letter;
    last = sc.last;
    whole = sc.whole;
    same_last = sc.same_last;
  }

  after_read-Ended :
      (fuel f : ℕ) (t : Text W V) (bs : Option (List ℕ))
      → ((f' : ℕ) (t' : Text W V)
          → dev.size < dev.position t'.input + fuel
          → 0 < fuel
          → Going dev sink opt lut bufsize start base first f' t'
          → Ended dev sink opt lut bufsize start base first
              (read_loop dev sink opt lut bufsize fuel t'))
      → (dev.read (bufsize - length t.kept) t.input).0 ≡ bs
      → Going dev sink opt lut bufsize start base first f t
      → dev.size < dev.position t.input + suc fuel
      → Ended dev sink opt lut bufsize start base first (
          after_read dev sink opt lut bufsize
            (read_loop dev sink opt lut bufsize fuel)
            (record t { input = (dev.read (bufsize - length t.kept) t.input).1 })
            bs)
  unfolding after_read
  after_read-Ended fuel f t none ih e go more = (
    false,
    f,
    idle f t (dev.read (bufsize - length t.kept) t.input).1 go.scanned,
    inr (t.input, bufsize - length t.kept, go.at, omega (arith, go.room), inl e),
  )
  after_read-Ended fuel f t (some []) ih e go more = (
    false,
    f,
    idle f t (dev.read (bufsize - length t.kept) t.input).1 go.scanned,
    inr (t.input, bufsize - length t.kept, go.at, omega (arith, go.room), inr e),
  )
  after_read-Ended fuel f t (some (b ∷ bs)) ih e go more =
      let n = bufsize - length t.kept in
      let w = (dev.read n t.input).1 in
      let moved = dev.read_moves n t.input (b ∷ bs) e in
      let inside = dev.read_inside n t.input (b ∷ bs) e (omega arith) in
      let count = dev.read_count n t.input (b ∷ bs) e in
      let grown = length-append t.kept (b ∷ bs) in
      after_inspect-Ended (read_loop dev sink opt lut bufsize fuel) f (record t { input = w })
        (b ∷ bs) (inspect_all opt dir_forward lut t.scores (length t.kept) (b ∷ bs))
        (λ f' t' same g. ih f' t' (omega arith) (omega arith) g)
        (inspected dev sink opt lut bufsize start base first f t w (b ∷ bs) go.scanned
          (read-bytes_from dev n t.input (b ∷ bs) e) go.at)
        (omega (arith, go.at, moved, grown)) (omega (arith, count, grown, go.room))

  pub read_loop-Ended :
      (fuel f : ℕ) (t : Text W V)
      → dev.size < dev.position t.input + fuel
      → 0 < fuel
      → Going dev sink opt lut bufsize start base first f t
      → Ended dev sink opt lut bufsize start base first (read_loop dev sink opt lut bufsize fuel t)
  unfolding read_loop
  read_loop-Ended zero f t more pos go = absurd (omega arith)
  read_loop-Ended (suc fuel) f t more pos go =
      after_read-Ended fuel f t (dev.read (bufsize - length t.kept) t.input).0
        (λ f' t' more' pos' g. read_loop-Ended fuel f' t' more' pos' g) refl go more
