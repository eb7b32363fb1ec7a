-- ===== src/ScanDisk/Defined.antt =====
-- The `memcpy` at the end of the body of the loop of `scan_disk` in src/magicrescue.c: when C defines it.
use mathlib.Core.Option.{some-injective}
use magicrescue.Base.{
  ℕ, zero, suc, ◌+◌, ◌-◌, ◌*◌, ◌≤◌, ◌<◌, ◌≡◌, ◌≢◌, ◌⊎◌, inl, inr, refl, sym, ap, ◌∙◌, Bool, true,
  false, Option, none, some, List, ltb, leb, length, arith, Option-cases, Bool-cases, ltb→lt,
}
use magicrescue.Recipe.{Recipe}
use magicrescue.Scanner.{Scanner}
use magicrescue.Memory.{Memory}
use magicrescue.ScanBuf.{Scan, scan_buf}
use magicrescue.Device.{Device}
use magicrescue.ScanDisk.{
  Disk, Exit, undefined_copy, store, copied, memcpy, bufsize, next_disk, advance, seek_back,
  after_scan, after_read, with_world, window, disk_loop, disk_start,
}

module _ {W : Type 0} (extract : Recipe → ℕ → W → Option ℕ × W) (dev : Device W)
    (scanners : List Scanner) (overlap : ℕ) where
  -- Where the reads go: to the start of the buffer at first, and behind the overlap later.
  record IsPlaced (d : Disk W) : Type 0 where
    first : d.firsttime ≡ true → d.readbuf ≡ 0
    later : d.firsttime ≡ false → d.readbuf ≡ overlap

  -- In no round but the first.
  record IsLater (d : Disk W) : Type 0 where
    not_first : d.firsttime ≡ false
    placed : d.readbuf ≡ overlap

  advance-IsLater :
      (d : Disk W) (got : ℕ) (s : Scan W)
      → IsPlaced d
      → overlap < got
      → (d.firsttime ≡ true → 2 * overlap ≤ got)
      → (d' : Disk W) × (advance extract dev scanners overlap d got s ≡ some d') × IsLater d'
  unfolding advance memcpy next_disk
  advance-IsLater d got s p more whole =
      let src = d.readbuf + got - overlap in
      let mem = copied d.mem 0 src overlap in
      elim (Bool-cases d.firsttime) [
        | inl f ↦
            let h = whole f in
            let z = p.first f in
            let apart : leb (0 + overlap) src ≡ true = ground arith in
            (
              next_disk extract dev scanners overlap d got s mem,
              rw (advance, memcpy, apart) refl,
              rw (f, next_disk) (record { not_first = refl; placed = omega arith }),
            )
        | inr f ↦
            let z = p.later f in
            let apart : leb (0 + overlap) src ≡ true = ground arith in
            (
              next_disk extract dev scanners overlap d got s mem,
              rw (advance, memcpy, apart) refl,
              rw (f, next_disk) (record { not_first = refl; placed = z }),
            )
      ]

  after_scan_defined :
      (next : Disk W → Exit × Disk W) (d : Disk W) (got : ℕ) (p : Scan W × Bool)
      → IsPlaced d
      → overlap < got
      → (d.firsttime ≡ true → 2 * overlap ≤ got)
      → ((d' : Disk W) → IsLater d' → (next d').0 ≢ undefined_copy)
      → (after_scan extract dev scanners overlap next d got p).0 ≢ undefined_copy
  unfolding after_scan
  after_scan_defined next d got (s, true) h more whole k = λ e. cc
  after_scan_defined next d got (s, false) h more whole k =
      elim (Option-cases (seek_back extract dev scanners overlap d got s s.changed)) [
        | inl e ↦ rw (e, after_scan) (λ z. cc)
        | inr (s', e) ↦
            let (d', z, later) = advance-IsLater d got s' h more whole in
            rw (e, after_scan, z) (k d' later)
      ]

  after_read_defined :
      (next : Disk W → Exit × Disk W) (d : Disk W) (got : Option (List ℕ))
      → IsPlaced d
      → ((bs : List ℕ)
          → got ≡ some bs
          → overlap < length bs
          → d.firsttime ≡ true
          → 2 * overlap ≤ length bs)
      → ((d' : Disk W) → IsLater d' → (next d').0 ≢ undefined_copy)
      → (after_read extract dev scanners overlap next d got).0 ≢ undefined_copy
  unfolding after_read
  after_read_defined next d none h whole k = λ e. cc
  after_read_defined next d (some bs) h whole k = elim (Bool-cases (ltb overlap (length bs))) [
    | inr less ↦ rw (less, after_read) (λ z. cc)
    | inl more ↦
        let m = ltb→lt _ _ more in
        let d' = record d { mem = store d.mem d.readbuf bs; progress = d.offset } in
        rw (more, after_read)
          (after_scan_defined next d' (length bs)
            (scan_buf extract d'.mem scanners (window extract dev scanners overlap d (length bs))
              d.scan)
            (record { first = h.first; later = h.later }) m (whole bs refl m) k)
  ]

  disk_loop_defined :
      (fuel : ℕ) (d : Disk W)
      → IsLater d
      → (disk_loop extract dev scanners overlap fuel d).0 ≢ undefined_copy
  unfolding disk_loop
  disk_loop_defined zero d h = λ e. cc
  disk_loop_defined (suc fuel) d h =
      after_read_defined (disk_loop extract dev scanners overlap fuel)
        (with_world extract dev scanners overlap d (dev.read d.readsize d.scan.world).1)
        (dev.read d.readsize d.scan.world).0
        (record { first = λ e. absurd (let c = sym e ∙ h.not_first in cc); later = λ e. h.placed })
        (λ bs e m f. absurd (let c = sym f ∙ h.not_first in cc))
        (λ d' later. disk_loop_defined fuel d' later)

  -- The first read returns more than `overlap` bytes, but fewer than twice as many.
  abbrev pub IsShortRead : W → Type 0
  IsShortRead w =
      (bs : List ℕ) × ((dev.read bufsize w).0 ≡ some bs)
      × (overlap < length bs)
      × (length bs < 2 * overlap)

  pub disk_start_defined :
      (fuel : ℕ) (mem : Memory) (start progress : ℕ) (s : Scan W)
      → ((disk_loop extract dev scanners overlap
            (suc fuel)
            (disk_start extract dev scanners overlap mem start progress s)).0
          ≢ undefined_copy)
        ⊎ IsShortRead s.world
  unfolding disk_loop
  disk_start_defined fuel mem start progress s = go (dev.read bufsize s.world).0 refl
    where
      ends :
          ((bs : List ℕ)
            → (dev.read bufsize s.world).0 ≡ some bs
            → overlap < length bs
            → 2 * overlap ≤ length bs)
          → (after_read extract dev scanners overlap
              (disk_loop extract dev scanners overlap fuel)
              (with_world extract dev scanners overlap
                (disk_start extract dev scanners overlap mem start progress s)
                (dev.read bufsize s.world).1)
              (dev.read bufsize s.world).0).0
            ≢ undefined_copy
      ends whole =
          after_read_defined (disk_loop extract dev scanners overlap fuel)
            (with_world extract dev scanners overlap
              (disk_start extract dev scanners overlap mem start progress s)
              (dev.read bufsize s.world).1)
            (dev.read bufsize s.world).0 (record { first = λ e. refl; later = λ e. absurd (cc) })
            (λ bs e m f. whole bs e m) (λ d' later. disk_loop_defined fuel d' later)

      go :
          (r : Option (List ℕ))
          → (dev.read bufsize s.world).0 ≡ r
          → ((after_read extract dev scanners overlap
                (disk_loop extract dev scanners overlap fuel)
                (with_world extract dev scanners overlap
                  (disk_start extract dev scanners overlap mem start progress s)
                  (dev.read bufsize s.world).1)
                (dev.read bufsize s.world).0).0
              ≢ undefined_copy)
            ⊎ IsShortRead s.world
      go none e = inl (ends (λ bs z m. let c : none ≡ some bs = sym e ∙ z in absurd cc))
      go (some bs) e = elim (Bool-cases (ltb (length bs) (2 * overlap))) [
        | inr long ↦ inl (
            ends (λ xs z m.
              let c : some bs ≡ some xs = sym e ∙ z in
              let same : length bs ≡ length xs = ap length (some-injective _ _ c) in ground arith))
        | inl short ↦ elim (Bool-cases (ltb overlap (length bs))) [
          | inl more ↦ inr (bs, e, ltb→lt _ _ more, ltb→lt _ _ short)
          | inr less ↦ inl (
              ends (λ xs z m.
                let c : some bs ≡ some xs = sym e ∙ z in
                let same : length bs ≡ length xs = ap length (some-injective _ _ c) in
                absurd (ground arith)))
        ]
      ]
