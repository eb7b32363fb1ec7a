-- ===== src/ScanDisk/Buffer.antt =====
-- The buffer of `scan_disk` in src/magicrescue.c and the part of the file that it holds.
use mathlib.Core.Path.{subst}
use mathlib.Core.Option.{some-injective}
use magicrescue.Base.{
  refl, ◌*◌, ◌||◌, leb, ℕ, ◌+◌, ◌-◌, ◌≤◌, ◌<◌, ◌≡◌, inl, inr, ap, ◌∙◌, true, false, Option, some,
  List, ltb, length, arith, Bool-cases,
}
use magicrescue.Memory.{Memory}
use magicrescue.Recipe.{Recipe}
use magicrescue.Scanner.{Scanner}
use magicrescue.ScanBuf.{Scan}
use magicrescue.Device.{Device}
use magicrescue.ScanDisk.{Disk, store, copied, memcpy, bufsize, next_disk, advance}

module _ {W : Type 0} (dev : Device W) (overlap : ℕ) where
  -- The bytes below `n` are those of the file from `filepos` on.
  abbrev pub Mirrors : Memory → ℕ → ℕ → Type 0
  Mirrors mem n filepos = (i : ℕ) → i < n → mem i ≡ dev.content (filepos + i)

  -- What holds of the variables at the test of the loop, before the read.
  pub record IsAligned (d : Disk W) : Type 0 where
    pub at : dev.position d.scan.world ≡ d.offset
    pub back : d.readbuf ≤ d.offset
    pub kept : Mirrors d.mem d.readbuf (d.offset - d.readbuf)
    pub room : d.readbuf + d.readsize ≡ bufsize
    pub first : d.firsttime ≡ true → d.readbuf ≡ 0
    pub later : d.firsttime ≡ false → d.readbuf ≡ overlap

  -- After a read of `got` bytes the buffer mirrors the file up to the last byte read.
  pub store-Mirrors :
      (d : Disk W) (bs : List ℕ)
      → IsAligned d
      → (dev.read d.readsize d.scan.world).0 ≡ some bs
      → Mirrors (store d.mem d.readbuf bs) (length bs + d.readbuf) (d.offset - d.readbuf)
  unfolding store
  store-Mirrors d bs a e i h = elim (Bool-cases (ltb i d.readbuf)) [
    | inl old ↦ ground (arith, a.kept i)
    | inr new ↦
        let z : dev.position d.scan.world + (i - d.readbuf) ≡ d.offset - d.readbuf + i =
          ground (arith, a.at, a.back) in
        let b = dev.read_bytes d.readsize d.scan.world bs (i - d.readbuf) e (ground arith) in
        ground (arith, b, ap dev.content z)
  ]

  -- The copy at the end of the body moves the last `overlap` bytes to the start.
  copied-Mirrors :
      (mem : Memory) (n filepos : ℕ)
      → overlap ≤ n
      → Mirrors mem n filepos
      → Mirrors (copied mem 0 (n - overlap) overlap) overlap (filepos + (n - overlap))
  unfolding copied
  copied-Mirrors mem n filepos le m i h =
      let z : filepos + (n - overlap + (i - 0)) ≡ filepos + (n - overlap) + i = omega arith in
      ground (arith, m (n - overlap + (i - 0)), ap dev.content z)

module _ {W : Type 0} (extract : Recipe → ℕ → W → Option ℕ × W) (dev : Device W)
    (scanners : List Scanner) (overlap : ℕ) where
  -- A copy of what C defines has moved the last bytes to the start.
  advance-next_disk :
      (d d' : Disk W) (got : ℕ) (s : Scan W)
      → advance extract dev scanners overlap d got s ≡ some d'
      → next_disk extract dev scanners overlap d got s
          (copied d.mem 0 (d.readbuf + got - overlap) overlap)
        ≡ d'
  unfolding advance memcpy
  advance-next_disk d d' got s e =
      let src = d.readbuf + got - overlap in
      elim (Bool-cases (leb (0 + overlap) src || leb (src + overlap) 0)) [
        | inl z ↦ some-injective _ _ (rw (z, advance, memcpy) at e)
        | inr z ↦ cc (rw (z, advance, memcpy) at e)
      ]

  -- What the end of the body does to the offset and the position.
  pub advance_offset :
      (d d' : Disk W) (got : ℕ) (s : Scan W)
      → advance extract dev scanners overlap d got s ≡ some d'
      → (d'.offset ≡ d.offset + got) × (d'.scan ≡ s)
  unfolding next_disk
  advance_offset d d' got s e =
      subst (λ (x : Disk W). (x.offset ≡ d.offset + got) × (x.scan ≡ s))
        (advance-next_disk d d' got s e) (refl, refl)

  next_disk-IsAligned :
      (d : Disk W) (bs : List ℕ) (progress : ℕ) (s : Scan W)
      → IsAligned dev overlap d
      → (dev.read d.readsize d.scan.world).0 ≡ some bs
      → overlap < length bs
      → dev.position s.world ≡ d.offset + length bs
      → IsAligned dev overlap (
          next_disk extract dev scanners overlap
            (record d { mem = store d.mem d.readbuf bs; progress = progress })
            (length bs)
            s
            (copied (store d.mem d.readbuf bs) 0 (d.readbuf + length bs - overlap) overlap))
  unfolding next_disk
  next_disk-IsAligned d bs progress s a e more behind =
      let count = dev.read_count d.readsize d.scan.world bs e in
      let moved : Mirrors dev overlap
          (copied (store d.mem d.readbuf bs) 0 (d.readbuf + length bs - overlap) overlap) overlap
          (d.offset + length bs - overlap) =
        subst
          (λ (n : ℕ).
            Mirrors dev overlap (copied (store d.mem d.readbuf bs) 0 (n - overlap) overlap) overlap
              (d.offset + length bs - overlap))
          (omega arith)
          (subst
            (λ (x : ℕ).
              Mirrors dev overlap
                (copied (store d.mem d.readbuf bs) 0 (length bs + d.readbuf - overlap) overlap)
                overlap x)
            (omega (arith, a.back))
            (copied-Mirrors dev overlap (store d.mem d.readbuf bs) (length bs + d.readbuf)
              (d.offset - d.readbuf) (omega arith) (store-Mirrors dev overlap d bs a e))) in
      elim (Bool-cases d.firsttime) [
        | inl f ↦
            let zero : d.readbuf ≡ 0 = a.first f in
            rw (f, next_disk)
              (record {
                at = behind;
                back = omega arith;
                kept = λ i h. moved i (omega arith) ∙ ap dev.content (omega arith);
                room = omega (arith, a.room);
                first = λ z. cc;
                later = λ z. omega arith;
              })
        | inr f ↦
            let full : d.readbuf ≡ overlap = a.later f in
            rw (f, next_disk)
              (record {
                at = behind;
                back = omega arith;
                kept = λ i h. moved i (omega arith) ∙ ap dev.content (omega arith);
                room = a.room;
                first = λ z. cc;
                later = λ z. full;
              })
      ]

  -- The variables at the test of the loop are aligned again after `advance`.
  pub advance-some-IsAligned :
      (d d' : Disk W) (bs : List ℕ) (progress : ℕ) (s : Scan W)
      → IsAligned dev overlap d
      → (dev.read d.readsize d.scan.world).0 ≡ some bs
      → overlap < length bs
      → dev.position s.world ≡ d.offset + length bs
      → advance extract dev scanners overlap
          (record d { mem = store d.mem d.readbuf bs; progress = progress })
          (length bs)
          s
        ≡ some d'
      → IsAligned dev overlap d'
  advance-some-IsAligned d d' bs progress s a e more behind z =
      subst (IsAligned dev overlap)
        (advance-next_disk (record d { mem = store d.mem d.readbuf bs; progress = progress }) d'
          (length bs) s z)
        (next_disk-IsAligned d bs progress s a e more behind)

  -- At the end of a round with more than `overlap` bytes the `memcpy` is one that C defines, and the
  -- variables are aligned again: the buffer holds the last `overlap` bytes of the file before the new
  -- offset. A first round has read `2 * overlap` bytes or more, since the regions overlap if it has
  -- read fewer; later rounds may read any number. The position may have been anywhere in between, and
  -- is now behind the last byte read.
  pub advance-IsAligned :
      (d : Disk W) (bs : List ℕ) (progress : ℕ) (s : Scan W)
      → IsAligned dev overlap d
      → (dev.read d.readsize d.scan.world).0 ≡ some bs
      → overlap < length bs
      → (d.firsttime ≡ true → 2 * overlap ≤ length bs)
      → dev.position s.world ≡ d.offset + length bs
      → (d' : Disk W) × (advance extract dev scanners overlap
            (record d { mem = store d.mem d.readbuf bs; progress = progress })
            (length bs)
            s
          ≡ some d')
        × IsAligned dev overlap d'
  unfolding advance memcpy
  advance-IsAligned d bs progress s a e more whole behind =
      let src = d.readbuf + length bs - overlap in
      let apart : leb (0 + overlap) src ≡ true = elim (Bool-cases d.firsttime) [
        | inl f ↦ let h = whole f in ground arith
        | inr f ↦ let h = a.later f in ground arith
      ] in
      let round = record d { mem = store d.mem d.readbuf bs; progress = progress } in
      (
        next_disk extract dev scanners overlap round (length bs) s
            (copied (store d.mem d.readbuf bs) 0 src overlap),
        rw (advance, memcpy, apart) refl,
        next_disk-IsAligned d bs progress s a e more behind,
      )
