-- ===== src/ScanDisk/Genuine.antt =====
-- The loop of `scan_disk` in src/magicrescue.c as a whole: the position and the reports.
use mathlib.Core.Path.{subst}
use magicrescue.Base.{
  ℕ, zero, suc, ◌+◌, ◌-◌, ◌<◌, ◌≡◌, inl, inr, refl, sym, ap, ◌∙◌, Bool, true, false, Option, none,
  some, List, ltb, length, arith, Any, All, Option-cases, Bool-cases, ltb→lt,
}
use magicrescue.Memory.{Memory}
use magicrescue.Recipe.{Recipe}
use magicrescue.Scanner.{Scanner}
use magicrescue.Scanner.Magic.{IsReady}
use magicrescue.ScanBuf.{Scan, scan_buf}
use magicrescue.ScanBuf.Whole.{scan_buf-Keeps}
use magicrescue.ScanBuf.Frame.{scan_buf-world}
use magicrescue.Device.{Device}
use magicrescue.ScanDisk.{
  Disk, Exit, finished, read_error, fatal, lseek_failed, undefined_copy, out_of_fuel, store,
  advance, seek_back, after_scan, after_read, with_world, window, disk_loop, disk_start,
  reset_ranges, scan_disk,
}
use magicrescue.ScanDisk.Buffer.{IsAligned, store-Mirrors, advance-some-IsAligned, advance_offset}
use magicrescue.ScanDisk.Reports.{Fits, FileMatches, Matches-file}

module _ {W : Type 0} (extract : Recipe → ℕ → W → Option ℕ × W) (dev : Device W)
    (scanners : List Scanner) (overlap : ℕ) where
  -- A report that is true of the file.
  abbrev pub Genuine : Recipe × ℕ → Type 0
  Genuine f = (sc : Scanner) × Any (λ t. t ≡ sc) scanners × FileMatches dev.content sc f.1 f.0

  -- After `scan_buf` and the `lseek` that follows it, the position is behind the last byte read.
  pub seek_back-position :
      (d : Disk W) (got : ℕ) (s s' : Scan W) (c : Bool)
      → (c ≡ false → dev.position s.world ≡ d.offset + got)
      → seek_back extract dev scanners overlap d got s c ≡ some s'
      → (dev.position s'.world ≡ d.offset + got) × (s'.found ≡ s.found)
  unfolding seek_back
  seek_back-position d got s s' false h e = ground (arith, h refl)
  seek_back-position d got s s' true h e = elim (Option-cases (dev.seek (d.offset + got) s.world)) [
    | inl z ↦ cc (rw (z, seek_back) at e)
    | inr (w, z) ↦ ground (arith, dev.seek_position (d.offset + got) s.world w z)
  ]

  module _ (ready : All (λ sc. IsReady sc.func) scanners)
      (fits : (sc : Scanner) → Any (λ t. t ≡ sc) scanners → Fits overlap sc) where
    scan_buf-Genuine :
        (d : Disk W) (bs : List ℕ) (s : Scan W)
        → IsAligned dev overlap d
        → (dev.read d.readsize d.scan.world).0 ≡ some bs
        → overlap < length bs
        → All Genuine s.found
        → All Genuine
            (scan_buf extract
              (store d.mem d.readbuf bs)
              scanners
              (window extract dev scanners overlap d (length bs))
              s).0.found
    scan_buf-Genuine d bs s a e more old =
        scan_buf-Keeps extract (store d.mem d.readbuf bs) scanners
          (window extract dev scanners overlap d (length bs)) s Genuine ready
          (λ sc r i m k. (
            sc,
            m,
            Matches-file (store d.mem d.readbuf bs) dev.content sc (length bs + d.readbuf - overlap)
                overlap (d.offset - d.readbuf) i r (fits sc m)
                (λ j lo hi. store-Mirrors dev overlap d bs a e j (omega arith)) k,
          ))
          old

    after_scan-Genuine :
        (next : Disk W → Exit × Disk W) (d : Disk W) (got : ℕ) (p : Scan W × Bool)
        → All Genuine p.0.found
        → (p.0.changed ≡ false → dev.position p.0.world ≡ d.offset + got)
        → ((s : Scan W)
            → dev.position s.world ≡ d.offset + got
            → All Genuine s.found
            → (d' : Disk W) → advance extract dev scanners overlap d got s ≡ some d'
            → All Genuine (next d').1.scan.found)
        → All Genuine (after_scan extract dev scanners overlap next d got p).1.scan.found
    unfolding after_scan
    after_scan-Genuine next d got (s, true) old h k = old
    after_scan-Genuine next d got (s, false) old h k =
        elim (Option-cases (seek_back extract dev scanners overlap d got s s.changed)) [
          | inl e ↦ rw (e, after_scan) old
          | inr (s', e) ↦
              let (at, same) = seek_back-position d got s s' s.changed h e in
              let old' = subst (All Genuine) (sym same) old in
              elim (Option-cases (advance extract dev scanners overlap d got s')) [
                | inl z ↦ rw (e, after_scan, z) old'
                | inr (d', z) ↦ rw (e, after_scan, z) (k s' at old' d' z)
              ]
        ]

    after_read-Genuine :
        (next : Disk W → Exit × Disk W) (d : Disk W) (got : Option (List ℕ))
        → IsAligned dev overlap d
        → (dev.read d.readsize d.scan.world).0 ≡ got
        → All Genuine d.scan.found
        → ((d' : Disk W)
            → IsAligned dev overlap d'
            → All Genuine d'.scan.found
            → All Genuine (next d').1.scan.found)
        → All Genuine
            (after_read extract dev scanners overlap next
              (with_world extract dev scanners overlap d (dev.read d.readsize d.scan.world).1)
              got).1.scan.found
    unfolding after_read
    after_read-Genuine next d none a e old k = old
    after_read-Genuine next d (some bs) a e old k = elim (Bool-cases (ltb overlap (length bs))) [
      | inr less ↦ rw (less, after_read) old
      | inl more ↦
          let m = ltb→lt _ _ more in
          let s = record d.scan { world = (dev.read d.readsize d.scan.world).1 } in
          let mem = store d.mem d.readbuf bs in
          let win = window extract dev scanners overlap d (length bs) in
          rw (more, after_read)
            (after_scan-Genuine next (record d { mem = mem; progress = d.offset; scan = s })
              (length bs) (scan_buf extract mem scanners win s) (scan_buf-Genuine d bs s a e m old)
              (λ c.
                ap dev.position (scan_buf-world extract mem scanners win s c)
                ∙ dev.read_moves d.readsize d.scan.world bs e
                ∙ ap (λ (t : ℕ). t + length bs) a.at)
              (λ t at found d' z.
                k d'
                  (unfold advance in
                    advance-some-IsAligned extract dev scanners overlap d d' bs d.offset t a e m at
                      z)
                  (subst (λ (x : Scan W). All Genuine x.found)
                    (sym
                      (advance_offset extract dev scanners overlap
                        (record d { mem = mem; progress = d.offset; scan = s }) d' (length bs) t
                        z).1)
                    found)))
    ]

    disk_loop-Genuine :
        (fuel : ℕ) (d : Disk W)
        → IsAligned dev overlap d
        → All Genuine d.scan.found
        → All Genuine (disk_loop extract dev scanners overlap fuel d).1.scan.found
    unfolding disk_loop
    disk_loop-Genuine zero d a old = old
    disk_loop-Genuine (suc fuel) d a old =
        after_read-Genuine (disk_loop extract dev scanners overlap fuel) d
          (dev.read d.readsize d.scan.world).0 a refl old (disk_loop-Genuine fuel)

    reset_ranges-found :
        (p : Exit × Disk W)
        → (reset_ranges extract dev scanners overlap p).1.scan.found ≡ p.1.scan.found
    unfolding reset_ranges
    reset_ranges-found (finished, d) = refl
    reset_ranges-found (read_error, d) = refl
    reset_ranges-found (fatal, d) = refl
    reset_ranges-found (lseek_failed, d) = refl
    reset_ranges-found (undefined_copy, d) = refl
    reset_ranges-found (out_of_fuel, d) = refl

    -- Every report that `scan_disk` makes is true of the file, whatever the sizes of the reads are
    -- and wherever `extract` leaves the position: a scanner finds what it looks for at that place of
    -- the file, and all operations of the reported recipe match there. The position is at `start`
    -- when the loop begins, every scanner is ready, no scanner and no operation reaches further than
    -- `overlap`, and the reports made before are true. A run is followed up to a `memcpy` of regions
    -- that overlap, if one comes: C defines nothing after it.
    pub scan_disk-Genuine :
        (mem : Memory) (start progress : ℕ) (s : Scan W)
        → dev.position s.world ≡ start
        → All Genuine s.found
        → All Genuine (scan_disk extract dev scanners overlap mem start progress s).1.scan.found
    unfolding scan_disk
    scan_disk-Genuine mem start progress s at old =
        let d = disk_start extract dev scanners overlap mem start progress s in
        subst (All Genuine)
          (sym (reset_ranges-found (disk_loop extract dev scanners overlap (suc dev.size) d)))
          (disk_loop-Genuine (suc dev.size) d
            (record {
              at = at;
              back = omega arith;
              kept = λ i h. absurd (omega arith);
              room = refl;
              first = λ e. refl;
              later = λ e. cc;
            })
            old)
