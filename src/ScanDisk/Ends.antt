-- ===== src/ScanDisk/Ends.antt =====
-- The rounds of the loop of `scan_disk` in src/magicrescue.c.
use magicrescue.Base.{
  ℕ, zero, suc, ◌+◌, ◌≤◌, ◌<◌, ◌≡◌, ◌≢◌, ◌⊎◌, inl, inr, refl, sym, ap, ◌∙◌, Bool, true, false,
  Option, none, some, List, ltb, length, arith, Option-cases, Bool-cases, ltb→lt,
}
use magicrescue.Recipe.{Recipe}
use magicrescue.Scanner.{Scanner}
use magicrescue.Memory.{Memory}
use magicrescue.ScanBuf.{Scan, scan_buf}
use magicrescue.ScanBuf.Frame.{scan_buf-world}
use magicrescue.Device.{Device}
use magicrescue.ScanDisk.{
  Disk, Exit, finished, read_error, fatal, lseek_failed, undefined_copy, out_of_fuel, store,
  advance, seek_back, after_scan, after_read, with_world, window, disk_loop, disk_start,
  reset_ranges, scan_disk,
}
use magicrescue.ScanDisk.Buffer.{advance_offset}
use magicrescue.ScanDisk.Defined.{IsShortRead, disk_start_defined}
use magicrescue.ScanDisk.Genuine.{seek_back-position}

module _ {W : Type 0} (extract : Recipe → ℕ → W → Option ℕ × W) (dev : Device W)
    (scanners : List Scanner) (overlap : ℕ) where
  after_scan-ends :
      (next : Disk W → Exit × Disk W) (d : Disk W) (got : ℕ) (p : Scan W × Bool)
      → (p.0.changed ≡ false → dev.position p.0.world ≡ d.offset + got)
      → ((s : Scan W)
          → dev.position s.world ≡ d.offset + got
          → (d' : Disk W) → advance extract dev scanners overlap d got s ≡ some d'
          → (next d').0 ≢ out_of_fuel)
      → (after_scan extract dev scanners overlap next d got p).0 ≢ out_of_fuel
  unfolding after_scan
  after_scan-ends next d got (s, true) h k = λ e. cc
  after_scan-ends next d got (s, false) h k =
      elim (Option-cases (seek_back extract dev scanners overlap d got s s.changed)) [
        | inl e ↦ rw (e, after_scan) (λ z. cc)
        | inr (s', e) ↦
            let at = (seek_back-position extract dev scanners overlap d got s s' s.changed h e).0 in
            elim (Option-cases (advance extract dev scanners overlap d got s')) [
              | inl z ↦ rw (e, after_scan, z) (λ y. cc)
              | inr (d', z) ↦ rw (e, after_scan, z) (k s' at d' z)
            ]
      ]

  after_read-ends :
      (next : Disk W → Exit × Disk W) (d : Disk W) (got : Option (List ℕ))
      → dev.position d.scan.world ≡ d.offset
      → (dev.read d.readsize d.scan.world).0 ≡ got
      → ((d' : Disk W)
          → d.offset < d'.offset
          → d'.offset ≤ dev.size
          → dev.position d'.scan.world ≡ d'.offset
          → (next d').0 ≢ out_of_fuel)
      → (after_read extract dev scanners overlap next
          (with_world extract dev scanners overlap d (dev.read d.readsize d.scan.world).1)
          got).0
        ≢ out_of_fuel
  unfolding after_read
  after_read-ends next d none a e k = λ z. cc
  after_read-ends next d (some bs) a e k = elim (Bool-cases (ltb overlap (length bs))) [
    | inr less ↦ rw (less, after_read) (λ z. cc)
    | inl more ↦
        let m = ltb→lt _ _ more in
        let s = record d.scan { world = (dev.read d.readsize d.scan.world).1 } in
        let mem = store d.mem d.readbuf bs in
        let win = window extract dev scanners overlap d (length bs) in
        let d' = record d { mem = mem; progress = d.offset; scan = s } in
        let inside = dev.read_inside d.readsize d.scan.world bs e (omega arith) in
        rw (more, after_read)
          (after_scan-ends next d' (length bs) (scan_buf extract mem scanners win s)
            (λ c.
              ap dev.position (scan_buf-world extract mem scanners win s c)
              ∙ dev.read_moves d.readsize d.scan.world bs e
              ∙ ap (λ (t : ℕ). t + length bs) a)
            (λ t at u z.
              let (off, same) = advance_offset extract dev scanners overlap d' u (length bs) t z in
              k u (omega arith) (omega (arith, inside, a))
                (ap (λ (x : Scan W). dev.position x.world) same ∙ at ∙ sym off)))
  ]

  disk_loop-ends :
      (fuel : ℕ) (d : Disk W)
      → dev.position d.scan.world ≡ d.offset
      → dev.size < d.offset + fuel
      → 0 < fuel
      → (disk_loop extract dev scanners overlap fuel d).0 ≢ out_of_fuel
  unfolding disk_loop
  disk_loop-ends zero d a h pos = absurd (omega arith)
  disk_loop-ends (suc fuel) d a h pos =
      after_read-ends (disk_loop extract dev scanners overlap fuel) d
        (dev.read d.readsize d.scan.world).0 a refl
        (λ d' more inside at. disk_loop-ends fuel d' at (omega arith) (omega arith))

  reset_ranges-exit : (p : Exit × Disk W) → (reset_ranges extract dev scanners overlap p).0 ≡ p.0
  unfolding reset_ranges
  reset_ranges-exit (finished, d) = refl
  reset_ranges-exit (read_error, d) = refl
  reset_ranges-exit (fatal, d) = refl
  reset_ranges-exit (lseek_failed, d) = refl
  reset_ranges-exit (undefined_copy, d) = refl
  reset_ranges-exit (out_of_fuel, d) = refl

  -- `scan_disk` ends on every file, whatever the scanners find and wherever `extract` leaves the
  -- position, if the position is at `start` when the loop begins. The `memcpy` in the loop is
  -- of regions apart, as C demands, unless the first read returns more than `overlap` bytes and fewer
  -- than twice as many.
  pub scan_disk-ends :
      (mem : Memory) (start progress : ℕ) (s : Scan W)
      → dev.position s.world ≡ start
      → ((scan_disk extract dev scanners overlap mem start progress s).0 ≢ out_of_fuel)
        × (((scan_disk extract dev scanners overlap mem start progress s).0 ≢ undefined_copy)
            ⊎ IsShortRead extract dev scanners overlap s.world)
  unfolding scan_disk
  scan_disk-ends mem start progress s at =
      let d = disk_start extract dev scanners overlap mem start progress s in
      let left = reset_ranges-exit (disk_loop extract dev scanners overlap (suc dev.size) d) in
      (
        (λ e. disk_loop-ends (suc dev.size) d at (omega arith) (omega arith) (sym left ∙ e)),
        elim (disk_start_defined extract dev scanners overlap dev.size mem start progress s) [
          | inl h ↦ inl (λ e. h (sym left ∙ e))
          | inr short ↦ inr short
        ],
      )
