-- ===== src/Safecat/Prefix.antt =====
-- What tools/safecat.c has copied when it ends.
use mathlib.Core.List.{append_assoc, append-nil}
use magicrescue.Base.{
  ℕ, zero, suc, ◌+◌, ◌-◌, ◌≤◌, ◌<◌, ◌≡◌, refl, sym, ap, ◌∙◌, false, Option, none, some, List, [],
  ◌∷◌, ◌++◌, ◌==◌, length, take, drop, length-drop, arith, Bool-cases, Option-cases, inl, inr,
}
use magicrescue.Memory.Slice.{bytes_from, bytes_from_append, take-bytes_from, drop-bytes_from}
use magicrescue.Device.{Device}
use magicrescue.Device.Reads.{read-bytes_from}
use magicrescue.Sink.{Sink}
use magicrescue.Safecat.{
  Limits, Cat, Copied, all_written, write_stopped, loop_out_of_fuel, End, at_end, limit_reached,
  write_ended, out_of_fuel, after_write, write_loop, look, goes_on, after_copy, after_read, bufsize,
  cat_loop, safecat,
}

module _ {W V : Type 0} (dev : Device W) (sink : Sink V) (file_size : V → Option ℕ)
    (limits : Limits) (p : ℕ) (old : List ℕ) where
  -- The bytes counted have been copied, from `p` on.
  pub record IsCopied (c : Cat W V) : Type 0 where
    pub out : sink.written c.output ≡ old ++ bytes_from dev.content p c.total_in

  -- The loop goes on with the input where the copy ends.
  pub record IsGoing (c : Cat W V) : Type 0 where
    pub copied : IsCopied c
    pub at : dev.position c.input ≡ p + c.total_in

  -- After the inner loop all of the bytes are copied, or some and it has left both loops.
  abbrev AreWritten : Cat W V → ℕ → Copied × Cat W V → Type 0
  AreWritten c n (all_written, c') =
      IsCopied c' × (c'.total_in ≡ c.total_in + n) × (c'.input ≡ c.input)
  AreWritten c n (write_stopped, c') = IsCopied c'
  AreWritten c n (loop_out_of_fuel, c') = ⊥

  copy_more :
      (c : Cat W V) (n m : ℕ) (v : V)
      → IsCopied c
      → n ≤ m
      → sink.written v ≡ sink.written c.output ++ take n (bytes_from dev.content (p + c.total_in) m)
      → IsCopied (record c { total_in = c.total_in + n; output = v })
  copy_more c n m v h le e = record {
    out =
        e
        ∙ ap (λ t. sink.written c.output ++ t) (take-bytes_from dev.content (p + c.total_in) n m le)
        ∙ ap (λ t. t ++ bytes_from dev.content (p + c.total_in) n) h.out
        ∙ append_assoc old (bytes_from dev.content p c.total_in)
            (bytes_from dev.content (p + c.total_in) n)
        ∙ ap (λ t. old ++ t) (bytes_from_append dev.content p c.total_in n);
  }

  slice : (x y n m : ℕ) → x ≡ y → n ≡ m → bytes_from dev.content x n ≡ bytes_from dev.content y m
  slice x y n m e h = rw (e, h) refl

  AreWritten-after :
      (c : Cat W V) (n : ℕ) (v : V) (m k : ℕ) (r : Copied × Cat W V)
      → n + m ≡ k
      → AreWritten (record c { total_in = c.total_in + n; output = v }) m r
      → AreWritten c k r
  AreWritten-after c n v m k (all_written, u) e (copied, total, same) = (copied, omega arith, same)
  AreWritten-after c n v m k (write_stopped, u) e copied = copied
  AreWritten-after c n v m k (loop_out_of_fuel, u) e copied = copied

  write_loop-AreWritten :
      (fuel : ℕ) (bs : List ℕ) (c : Cat W V)
      → length bs ≤ fuel
      → IsCopied c
      → bs ≡ bytes_from dev.content (p + c.total_in) (length bs)
      → AreWritten c (length bs) (write_loop dev sink file_size limits fuel bs c)
  unfolding write_loop
  write_loop-AreWritten fuel [] c h k e = (k, omega arith, refl)
  write_loop-AreWritten zero (b ∷ bs) c h k e = absurd (omega arith)
  write_loop-AreWritten (suc fuel) (b ∷ bs) c h k e =
      go
        (λ n v le ok same.
          write_loop-AreWritten fuel (drop n (b ∷ bs))
            (record c { total_in = c.total_in + n; output = v }) le ok same)
        (sink.write (b ∷ bs) c.output) refl
    where
      go :
          ((n : ℕ) (v : V)
            → length (drop n (b ∷ bs)) ≤ fuel
            → IsCopied (record c { total_in = c.total_in + n; output = v })
            → drop n (b ∷ bs)
              ≡ bytes_from dev.content (p + (c.total_in + n)) (length (drop n (b ∷ bs)))
            → AreWritten
                (record c { total_in = c.total_in + n; output = v })
                (length (drop n (b ∷ bs)))
                (write_loop dev sink file_size limits fuel
                  (drop n (b ∷ bs))
                  (record c { total_in = c.total_in + n; output = v })))
          → (r : Option ℕ × V) → sink.write (b ∷ bs) c.output ≡ r
          → AreWritten c (suc (length bs)) (
              after_write dev sink file_size limits
                (write_loop dev sink file_size limits fuel)
                (b ∷ bs)
                c
                r)
      go rest (none, v) z = record {
        out =
            ap (λ q. sink.written q.1) (sym z)
            ∙ sink.write_fails (b ∷ bs) c.output (ap (λ q. q.0) z)
            ∙ k.out;
      }
      go rest (some n, v) z =
          let count = ap (λ q. q.0) z in
          let le = sink.write_count (b ∷ bs) c.output n count in
          let pos = sink.write_some (b ∷ bs) c.output n (omega arith) count in
          let some_written : (n == 0) ≡ false = ground arith in
          let copied = copy_more c n (suc (length bs)) v k le (
            ap (λ q. sink.written q.1) (sym z)
            ∙ sink.write_bytes (b ∷ bs) c.output n count
            ∙ ap (λ t. sink.written c.output ++ take n t) e) in
          rw (some_written) (
            AreWritten-after c n v (length (drop n (b ∷ bs))) (suc (length bs))
              (write_loop dev sink file_size limits fuel (drop n (b ∷ bs))
                (record c { total_in = c.total_in + n; output = v }))
              (omega (arith, length-drop n (b ∷ bs)))
              (rest n v (omega (arith, length-drop n (b ∷ bs))) copied (
                ap (drop n) e
                ∙ drop-bytes_from dev.content (p + c.total_in) n (suc (length bs)) le
                ∙ slice (p + c.total_in + n) (p + (c.total_in + n)) (suc (length bs) - n)
                    (length (drop n (b ∷ bs))) (omega arith)
                    (omega (arith, length-drop n (b ∷ bs))))))

  look-IsGoing : (c : Cat W V) → IsGoing c → IsGoing (look dev sink file_size limits c)
  unfolding look
  look-IsGoing c h = elim (Option-cases (file_size c.output)) [
    | inl e ↦ rw (e, look) (record { copied = record { out = h.copied.out }; at = h.at })
    | inr (size, e) ↦ elim (Bool-cases (size == c.total_out)) [
      | inl z ↦ rw (e, z, look) h
      | inr z ↦ rw (e, z, look) (record { copied = record { out = h.copied.out }; at = h.at })
    ]
  ]

  look_input : (c : Cat W V) → (look dev sink file_size limits c).input ≡ c.input
  unfolding look
  look_input c = elim (Option-cases (file_size c.output)) [
    | inl e ↦ rw (e, look) refl
    | inr (size, e) ↦ elim (Bool-cases (size == c.total_out)) [
      | inl z ↦ rw (e, z, look) refl
      | inr z ↦ rw (e, z, look) refl
    ]
  ]

  -- The loops have ended, and the bytes counted are copied.
  abbrev pub HasCopied : End × Cat W V → Type 0
  HasCopied (at_end, c) = IsCopied c
  HasCopied (limit_reached, c) = IsCopied c
  HasCopied (write_ended, c) = IsCopied c
  HasCopied (out_of_fuel, c) = ⊥

  after_copy-HasCopied :
      (next : Cat W V → End × Cat W V) (c : Cat W V) (n : ℕ) (r : Copied × Cat W V)
      → ((u : Cat W V) → IsGoing u → u.input ≡ c.input → HasCopied (next u))
      → dev.position c.input ≡ p + (c.total_in + n)
      → AreWritten c n r
      → HasCopied (after_copy dev sink file_size limits next r)
  unfolding after_copy look
  after_copy-HasCopied next c n (loop_out_of_fuel, u) h at k = k
  after_copy-HasCopied next c n (write_stopped, u) h at k = k
  after_copy-HasCopied next c n (all_written, u) h at (copied, total, same) =
      let going : IsGoing u = record {
        copied = copied;
        at = ap dev.position same ∙ at ∙ omega arith;
      } in
      let looked = look-IsGoing u going in
      elim (Bool-cases (goes_on dev sink file_size limits (look dev sink file_size limits u))) [
        | inl e ↦ rw (e) (h (look dev sink file_size limits u) looked (look_input u ∙ same))
        | inr e ↦ rw (e) looked.copied
      ]

  after_read-HasCopied :
      (next : Cat W V → End × Cat W V) (c : Cat W V) (w : W) (r : Option (List ℕ))
      → IsGoing c
      → (dev.read bufsize c.input).0 ≡ r
      → (dev.read bufsize c.input).1 ≡ w
      → ((u : Cat W V)
          → IsGoing u
          → dev.position c.input < dev.position u.input
          → dev.position u.input ≤ dev.size
          → HasCopied (next u))
      → HasCopied (after_read dev sink file_size limits next (record c { input = w }) r)
  unfolding after_read
  after_read-HasCopied next c w none h e i k = record { out = h.copied.out }
  after_read-HasCopied next c w (some []) h e i k = record { out = h.copied.out }
  after_read-HasCopied next c w (some (b ∷ bs)) h e i k =
      let moved = ap dev.position (sym i) ∙ dev.read_moves bufsize c.input (b ∷ bs) e in
      let inside = dev.read_inside bufsize c.input (b ∷ bs) e (omega arith) in
      let at = h.at in
      after_copy-HasCopied next (record c { input = w }) (suc (length bs))
        (write_loop dev sink file_size limits (length (b ∷ bs)) (b ∷ bs) (record c { input = w }))
        (λ u going same. let z = ap dev.position same in k u going (omega arith) (omega arith))
        (omega arith)
        (write_loop-AreWritten (length (b ∷ bs)) (b ∷ bs) (record c { input = w }) (omega arith)
          (record { out = h.copied.out })
          (read-bytes_from dev bufsize c.input (b ∷ bs) e
            ∙ slice (dev.position c.input) (p + c.total_in) (suc (length bs)) (suc (length bs)) at
                refl))

  cat_loop-HasCopied :
      (fuel : ℕ) (c : Cat W V)
      → IsGoing c
      → 0 < fuel
      → dev.size < fuel + dev.position c.input
      → HasCopied (cat_loop dev sink file_size limits fuel c)
  unfolding cat_loop
  cat_loop-HasCopied zero c h pos l = absurd (omega arith)
  cat_loop-HasCopied (suc fuel) c h pos l =
      after_read-HasCopied (cat_loop dev sink file_size limits fuel) c (dev.read bufsize c.input).1
        (dev.read bufsize c.input).0 h refl refl
        (λ u going more inside. cat_loop-HasCopied fuel u going (omega arith) (omega arith))

module _ {W V : Type 0} (dev : Device W) (sink : Sink V) (file_size : V → Option ℕ)
    (limits : Limits) where
  -- Both loops of `safecat` end, on every input and with every way that reads, writes and the size of the file go,
  -- and it has copied a piece of its input, from where that stood, of as many bytes as it has counted
  -- in `total_in`: each byte once and in order.
  pub safecat-HasCopied :
      (w : W) (v : V)
      → HasCopied dev sink file_size limits
          (dev.position w)
          (sink.written v)
          (safecat dev sink file_size limits w v)
  unfolding safecat bytes_from
  safecat-HasCopied w v =
      cat_loop-HasCopied dev sink file_size limits (dev.position w) (sink.written v) (suc dev.size)
        (record { total_in = 0; total_out = 0; in_at_last_out = 0; input = w; output = v })
        (record { copied = record { out = sym (append-nil (sink.written v)) }; at = omega arith })
        (omega arith) (omega arith)
