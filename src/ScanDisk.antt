-- ===== src/ScanDisk.antt =====
-- `scan_disk` of src/magicrescue.c: the loop that reads a device through a buffer whose scanned part
-- overlaps from one round to the next.
pub mod Buffer
pub mod Reports
pub mod Genuine
pub mod Defined
pub mod Ends
use magicrescue.Base.{
  ℕ, zero, suc, ◌+◌, ◌-◌, Bool, true, false, ◌&&◌, ◌||◌, Option, none, some, List, [], ◌∷◌, ltb,
  leb, if◌then◌else◌, length, get_or, map,
}
use magicrescue.Memory.{Memory}
use magicrescue.Recipe.{Recipe}
use magicrescue.Scanner.{Scanner}
use magicrescue.ScanBuf.{Range, Window, Scan, scan_buf}
use magicrescue.Device.{Device}

abbrev pub bufsize : ℕ
bufsize = 102400

-- What `read` writes at `p`.
unfoldable pub store : Memory → ℕ → List ℕ → Memory
store mem p bs i = if leb p i && ltb i (p + length bs) then get_or bs (i - p) 0 else mem i

unfoldable pub copied : Memory → ℕ → ℕ → ℕ → Memory
copied mem dst src n i = if leb dst i && ltb i (dst + n) then mem (src + (i - dst)) else mem i

-- `memcpy` of `n` bytes from `src` to `dst`; none for regions that overlap, for which C does not
-- define it.
unfoldable pub memcpy : Memory → ℕ → ℕ → ℕ → Option Memory
unfolding copied
memcpy mem dst src n =
    if leb (dst + n) src || leb (src + n) dst then some (copied mem dst src n) else none

-- The variables of `scan_disk`; `scanbuf` is address 0, and `progress` is `progress.position`.
pub record Disk (W : Type 0) : Type 0 where
  pub mem : Memory
  pub readbuf : ℕ
  pub readsize : ℕ
  pub offset : ℕ
  pub firsttime : Bool
  pub progress : ℕ
  pub scan : Scan W

-- How the loop is left: `got` is at most the overlap, `got` is -1, or one of the two `return`s.
-- `undefined_copy` stands for a program that C does not define, from a `memcpy` of regions that overlap
-- on; the last for a loop that has not ended.
pub data Exit : Type 0 where
  finished read_error fatal lseek_failed undefined_copy out_of_fuel : Exit

module _ {W : Type 0} (extract : Recipe → ℕ → W → Option ℕ × W) (dev : Device W)
    (scanners : List Scanner) (overlap : ℕ) where
  -- The variables at the end of the body.
  unfoldable pub next_disk : Disk W → ℕ → Scan W → Memory → Disk W
  next_disk d got s mem = record d {
    mem = mem;
    readbuf = if d.firsttime then d.readbuf + overlap else d.readbuf;
    readsize = if d.firsttime then d.readsize - overlap else d.readsize;
    firsttime = false;
    offset = d.offset + got;
    scan = s;
  }

  -- The end of the body: the unscanned bytes go to the start of the buffer.
  unfoldable pub advance : Disk W → ℕ → Scan W → Option (Disk W)
  unfolding memcpy next_disk
  advance d got s = elim (memcpy d.mem 0 (d.readbuf + got - overlap) overlap) [
    | none ↦ none
    | some mem ↦ some (next_disk d got s mem)
  ]

  abbrev pub go_on : (Disk W → Exit × Disk W) → Disk W → Option (Disk W) → Exit × Disk W
  go_on next d none = (undefined_copy, d)
  go_on next d (some d') = next d'

  -- After `scan_buf`: a fatal error, the way back to where the reading stopped, or nothing.
  unfoldable pub seek_back : Disk W → ℕ → Scan W → Bool → Option (Scan W)
  seek_back d got s false = some s
  seek_back d got s true = elim (dev.seek (d.offset + got) s.world) [
    | none ↦ none
    | some w ↦ some (record s { world = w })
  ]

  unfoldable pub after_scan : (Disk W → Exit × Disk W) → Disk W → ℕ → Scan W × Bool → Exit × Disk W
  unfolding advance seek_back
  after_scan next d got (s, true) = (fatal, record d { scan = s })
  after_scan next d got (s, false) = elim (seek_back d got s s.changed) [
    | none ↦ (lseek_failed, record d { scan = s })
    | some s' ↦ go_on next (record d { scan = s' }) (advance d got s')
  ]

  -- The call of `scan_buf` in a round that has read `got` bytes.
  abbrev pub window : Disk W → ℕ → Window
  window d got = record {
    scanbuf = 0;
    len = got + d.readbuf - overlap;
    filepos = d.offset - d.readbuf;
  }

  -- The test of the loop and its body, on what `read` returned.
  unfoldable pub after_read : (Disk W → Exit × Disk W) → Disk W → Option (List ℕ) → Exit × Disk W
  unfolding after_scan store
  after_read next d none = (read_error, d)
  after_read next d (some bs) = elim (ltb overlap (length bs)) [
    | false ↦ (finished, record d { mem = store d.mem d.readbuf bs })
    | true ↦
        let d' = record d { mem = store d.mem d.readbuf bs; progress = d.offset } in
        after_scan next d' (length bs)
          (scan_buf extract d'.mem scanners (window d (length bs)) d.scan)
  ]

  abbrev pub with_world : Disk W → W → Disk W
  with_world d w = record d { scan = record d.scan { world = w } }

  unfoldable pub disk_loop : ℕ → Disk W → Exit × Disk W
  unfolding after_read
  disk_loop zero d = (out_of_fuel, d)
  disk_loop (suc fuel) d =
      let (got, w) = dev.read d.readsize d.scan.world in
      after_read (disk_loop fuel) (with_world d w) got

  abbrev pub reset_range : Range → Range
  reset_range r = record r { begin = none }

  -- The end of `scan_disk`. The two `return`s in the loop leave the ranges as they are.
  unfoldable pub reset_ranges : Exit × Disk W → Exit × Disk W
  reset_ranges (finished, d) =
      (finished, record d { scan = record d.scan { ranges = map reset_range d.scan.ranges } })
  reset_ranges (read_error, d) =
      (read_error, record d { scan = record d.scan { ranges = map reset_range d.scan.ranges } })
  reset_ranges (e, d) = (e, d)

  -- The state before the loop, the file at `start`; `progress` is that of the device before.
  abbrev pub disk_start : Memory → ℕ → ℕ → Scan W → Disk W
  disk_start mem start progress s = record {
    mem = mem;
    readbuf = 0;
    readsize = bufsize;
    offset = start;
    firsttime = true;
    progress = progress;
    scan = s;
  }

  -- `scan_disk` once the device is open and `rich_seek` has returned `start`. A round takes a byte
  -- at least, so one for each byte of the file, and one more, are enough fuel.
  unfoldable pub scan_disk : Memory → ℕ → ℕ → Scan W → Exit × Disk W
  unfolding disk_loop reset_ranges
  scan_disk mem start progress s =
      reset_ranges (disk_loop (suc dev.size) (disk_start mem start progress s))
