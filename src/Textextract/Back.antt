-- ===== src/Textextract/Back.antt =====
-- What `read_backward` of tools/textextract.c has written, and where it leaves its input.
use mathlib.Core.Path.{subst}
use mathlib.Core.List.{append-nil, reverse-cons}
use mathlib.Core.Option.{some-injective}
use magicrescue.Base.{
  ℕ, ◌+◌, ◌-◌, ◌≤◌, ◌<◌, ◌≡◌, ◌≢◌, ◌⊎◌, refl, sym, ap, ◌∙◌, Bool, true, false, Option, none, some,
  List, [], ◌∷◌, ◌++◌, ◌==◌, if◌then◌else◌, length, length-append, drop, reverse, arith, Bool-cases,
  Option-cases, inl, inr, ==_iff,
}
use magicrescue.Memory.Slice.{bytes_from, drop-bytes_from}
use magicrescue.Device.{Device}
use magicrescue.Device.Reads.{read-bytes_from}
use magicrescue.Sink.{Sink, write_all-reliable}
use magicrescue.Textextract.{
  Options, dir_reverse, Entry, Scores, scores_init, inspect_char, count_char, is_positive,
  unless_stop,
}
use magicrescue.Textextract.Stream.{Below}
use magicrescue.Textextract.Buffer.{letter_bound}
use magicrescue.Textextract.Backward.{
  Back, back_count, inspect_down, back_write, back_got, back_read, read_backward,
}

Below-set :
    (b : Bool) (p n : ℕ) (l : Option ℕ) → p < n → Below l n → Below (if b then l else some p) n
Below-set true p n l h k = k
Below-set false p n l h k = h

length-reverse : (bs : List ℕ) → length (reverse bs) ≡ length bs
length-reverse [] = refl
length-reverse (b ∷ bs) =
    ap length (reverse-cons b bs)
    ∙ length-append (reverse bs) (b ∷ [])
    ∙ ap (λ n. n + 1) (length-reverse bs)
    ∙ omega arith

module _ {W V : Type 0} (dev : Device W) (sink : Sink V) (opt : Options) (lut : ℕ → Entry)
    (bufsize : ℕ) (max_reverse : ℕ)
    (reliable : (bs : List ℕ) (u : V) → (sink.write bs u).0 ≢ none) where
  inspect_down-Below :
      (n : ℕ) (s : Scores) (cs : List ℕ)
      → length cs ≤ n
      → Below s.last_letter n
      → Below (inspect_down dev sink opt lut bufsize max_reverse s cs).0.last_letter n
  unfolding inspect_down inspect_char
  inspect_down-Below n s [] h b = b
  inspect_down-Below n s (c ∷ cs) h b =
      let b' = Below-set (is_positive (lut c).score) (length cs) n s.last_letter (omega arith) b in
      elim (Bool-cases (count_char opt dir_reverse lut s.counters c).1) [
        | inl stop ↦ rw (stop, unless_stop) b'
        | inr go ↦
            rw (go, unless_stop)
              (inspect_down-Below n
                (record {
                  last_letter =
                      if is_positive (lut c).score then s.last_letter else some (length cs);
                  counters = (count_char opt dir_reverse lut s.counters c).0;
                })
                cs (omega arith) b')
      ]

  -- A piece of the file that ends at `p` has been written.
  abbrev pub EndsAt : ℕ → V → V → Type 0
  EndsAt p v v' =
      (k : ℕ) × (k ≤ p) × (sink.written v' ≡ sink.written v ++ bytes_from dev.content (p - k) k)

  -- After a call that returned 0 the position is again where it was.
  abbrev pub IsBack : ℕ → V → Back W V → Type 0
  IsBack p v b = EndsAt p v b.output × (b.ok ≡ true → dev.position b.input ≡ p)

  nothing : (p : ℕ) (v : V) → EndsAt p v v
  unfolding bytes_from
  nothing p v = (0, omega arith, sym (append-nil (sink.written v)))

  back_write-IsBack :
      (p : ℕ) (bs : List ℕ) (w : W) (v : V) (r : Scores × Bool)
      → length bs ≤ p
      → bs ≡ bytes_from dev.content (p - length bs) (length bs)
      → dev.position w ≡ p
      → Below r.0.last_letter (length bs)
      → IsBack p v (back_write dev sink opt lut bufsize max_reverse bs w v r)
  unfolding back_write
  back_write-IsBack p bs w v (s, false) h e at b = (
    (length bs, h, write_all-reliable sink reliable bs v ∙ ap (λ t. sink.written v ++ t) e),
    λ ok. at,
  )
  back_write-IsBack p bs w v (s, true) h e at b = elim (Option-cases s.last_letter) [
    | inl z ↦ rw (z, back_write, IsBack) (nothing p v, λ ok. at)
    | inr (q, z) ↦
        let below = letter_bound q s.last_letter (length bs) z b in
        let z' : p - length bs + q ≡ p - (length bs - q) = omega arith in
        rw (z, back_write, IsBack)
          (
            (
              length bs - q,
              omega arith,
              write_all-reliable sink reliable (drop q bs) v
                  ∙ ap (λ t. sink.written v ++ t)
                      (ap (drop q) e
                        ∙ drop-bytes_from dev.content (p - length bs) q (length bs) (omega arith)
                        ∙ ap (λ x. bytes_from dev.content x (length bs - q)) z'),
            ),
            λ ok. at,
          )
  ]

  back_got-IsBack :
      (p n : ℕ) (s : Scores) (w : W) (v : V) (r : Option (List ℕ))
      → n ≤ p
      → s.last_letter ≡ none
      → ((bs : List ℕ)
          → r ≡ some bs
          → (bs ≡ bytes_from dev.content (p - n) (length bs))
            × (dev.position w ≡ p - n + length bs))
      → IsBack p v (back_got dev sink opt lut bufsize max_reverse n s w v r)
  unfolding back_got
  back_got-IsBack p n s w v none h z k = (nothing p v, λ e. cc)
  back_got-IsBack p n s w v (some bs) h z k = elim (Bool-cases (length bs == n)) [
    | inl e ↦
        let e' : length bs ≡ n = (==_iff (length bs) n).0 e in
        let (same, at) = k bs refl in
        rw (e) (
          back_write-IsBack p bs w v
            (inspect_down dev sink opt lut bufsize max_reverse s (reverse bs)) (omega arith)
            (same ∙ ap (λ x. bytes_from dev.content (p - x) (length bs)) (sym e'))
            (at ∙ omega arith)
            (inspect_down-Below (length bs) s (reverse bs) (omega (arith, length-reverse bs))
              (subst (λ l. Below l (length bs)) (sym z) tt)))
    | inr e ↦ rw (e) (nothing p v, λ ok. cc)
  ]

  back_read-IsBack :
      (n : ℕ) (s : Scores) (w : W) (v : V)
      → n ≤ dev.position w
      → s.last_letter ≡ none
      → IsBack (dev.position w) v (back_read dev sink opt lut bufsize max_reverse n s w v)
  unfolding back_read
  back_read-IsBack n s w v h z = elim (Option-cases (dev.seek (dev.position w - n) w)) [
    | inl e ↦ rw (e, back_read, IsBack) (nothing (dev.position w) v, λ ok. cc)
    | inr (u, e) ↦
        let at = dev.seek_position (dev.position w - n) w u e in
        rw (e, back_read, IsBack)
          (back_got-IsBack (dev.position w) n s (dev.read n u).1 v (dev.read n u).0 h z (λ bs k. (
            read-bytes_from dev n u bs k ∙ ap (λ x. bytes_from dev.content x (length bs)) at,
            dev.read_moves n u bs k ∙ ap (λ x. x + length bs) at,
          )))
  ]

  back_count_bound : (offset : ℕ) → back_count dev sink opt lut bufsize max_reverse offset ≤ offset
  unfolding back_count
  back_count_bound offset = ground arith

  pub read_backward-IsBack :
      (offset : Option ℕ) (w : W) (v : V)
      → (offset ≡ none) ⊎ (offset ≡ some (dev.position w))
      → IsBack
          (dev.position w)
          v
          (read_backward dev sink opt lut bufsize max_reverse (scores_init offset) w v)
  unfolding read_backward scores_init
  read_backward-IsBack none w v h = (nothing (dev.position w) v, λ ok. refl)
  read_backward-IsBack (some offset) w v (inl e) = absurd cc
  read_backward-IsBack (some offset) w v (inr e) = elim (Bool-cases (offset == 0)) [
    | inl z ↦ rw (z) (nothing (dev.position w) v, λ ok. refl)
    | inr z ↦
        let same : offset ≡ dev.position w = some-injective offset (dev.position w) e in
        rw (z) (
          back_read-IsBack (back_count dev sink opt lut bufsize max_reverse offset)
            (scores_init (some offset)) w v (omega (arith, back_count_bound offset)) refl)
  ]
