-- ===== src/Program/Devices.antt =====
-- The start of `scan_disk` of src/magicrescue.c, which opens a device, and the loops of `main` over the
-- devices and over the names of -I.
use mathlib.Core.Path.{subst}
use magicrescue.Base.{
  ℕ, ◌≡◌, refl, Option, none, some, List, [], ◌∷◌, ◌-◌, map, take, ltb, if◌then◌else◌, length,
}
use magicrescue.Base.Int.{ℤ}
use magicrescue.Util.Seek.{Whence, rich_seek}
use magicrescue.Memory.{Memory}
use magicrescue.Recipe.{Recipe}
use magicrescue.Device.{Device}
use magicrescue.ScanBuf.{Scan}
use magicrescue.ScanDisk.{Disk, Exit, scan_disk}
use magicrescue.Extract.{NameMode, mode_device, mode_files}
use magicrescue.Parse.{Globals}
use magicrescue.Program.Options.{Settings}
use magicrescue.Parse.Scanf.{bytes_eq, codes}

-- `open` of a device and `lseek` on it, which returns the new position.
pub record Opens (W : Type 0) (dev : Device W) : Type 0 where
  pub open_device : W → Option W
  pub lseek : Whence × ℤ → W → Option (ℕ × W)
  pub lseek_position :
      (to : Whence × ℤ) (w : W) (p : ℕ × W) → lseek to w ≡ some p → dev.position p.1 ≡ p.0

-- What one call of `scan_disk` leaves to the next.
pub record Buffers (W : Type 0) : Type 0 where
  pub mem : Memory
  pub progress : ℕ
  pub scan : Scan W

-- The two `return`s before the loop, and the loop; an offset may be undefined in C.
pub data Scanned (W : Type 0) : Type 0 where
  not_opened not_sought undefined_offset : Scanned W
  scanned : Exit × Disk W → Scanned W

-- How `main` ends once the options are read; `none` is an offset that is undefined in C.
pub data Ended (W : Type 0) : Type 0 where
  usage_error : Ended W
  no_list : Buffers W → Ended W
  finished : Option (Buffers W) → Ended W

-- `name_mode` of the files found.
abbrev pub name_mode : List (List ℕ) → Option (List ℕ) → NameMode
name_mode devices none = if ltb 5 (length devices) then mode_files else mode_device
name_mode devices (some from) = mode_files

module _ {W : Type 0} (extract : Recipe → ℕ → W → Option ℕ × W) (atoll : List ℕ → ℤ) (g : Globals)
    (dev : List ℕ → Device W) (opens : (path : List ℕ) → Opens W (dev path)) where
  abbrev scan_from : List ℕ → Buffers W → Option (ℕ × W) → Scanned W
  scan_from path b none = not_sought
  scan_from path b (some (start, w)) = scanned (
      scan_disk extract (dev path) g.scanners g.overlap b.mem start b.progress
        (record b.scan { world = w }))

  abbrev scan_at : List ℕ → Buffers W → W → Option (Whence × ℤ) → Scanned W
  scan_at path b w none = undefined_offset
  scan_at path b w (some to) = scan_from path b ((opens path).lseek to w)

  abbrev scan_opened : List ℕ → Option (List ℕ) → Buffers W → Option W → Scanned W
  scan_opened path offset b none = not_opened
  scan_opened path offset b (some w) = scan_at path b w (rich_seek atoll offset)

  -- The device `-` is the standard input, which is open.
  unfoldable pub scan_device : List ℕ → Option (List ℕ) → Buffers W → Scanned W
  scan_device path offset b = scan_opened path offset b (
      if bytes_eq path (codes "-")
      then some b.scan.world
      else (opens path).open_device b.scan.world)

  -- The next device is scanned whatever became of the last one, unless C has no say in it.
  abbrev pub and_then :
      (Buffers W → Option (Buffers W)) → Buffers W → Scanned W → Option (Buffers W)
  and_then next b undefined_offset = none
  and_then next b not_opened = next b
  and_then next b not_sought = next b
  and_then next b (scanned (e, d)) =
      next (record { mem = d.mem; progress = d.progress; scan = d.scan })

  -- The loop over the arguments; only the first is scanned from the offset of -O.
  unfoldable pub scan_devices : Option (List ℕ) → List (List ℕ) → Buffers W → Option (Buffers W)
  unfolding scan_device
  scan_devices offset [] b = some b
  scan_devices offset (path ∷ paths) b =
      and_then (scan_devices none paths) b (scan_device path offset b)

  -- The end of `main`: the devices, and then the names in the file of -I, if it can be opened.
  unfoldable pub scan_names : Option (List (List ℕ)) → Buffers W → Ended W
  unfolding scan_devices
  scan_names none b = no_list b
  scan_names (some lines) b =
      finished (scan_devices none (map (λ line. take (length line - 1) line) lines) b)

  abbrev list_or_end :
      (List ℕ → Option (List (List ℕ))) → Option (List ℕ) → Option (Buffers W) → Ended W
  list_or_end lines_of from none = finished none
  list_or_end lines_of none (some b) = finished (some b)
  list_or_end lines_of (some from) (some b) = scan_names (lines_of from) b

  unfoldable pub run_main :
      (List ℕ → Option (List (List ℕ))) → Settings → List (List ℕ) → Buffers W → Ended W
  unfolding scan_names
  run_main lines_of s devices b = elim s.globals.scanners [
    | [] ↦ usage_error
    | sc ∷ rest ↦ elim s.output_dir [
      | none ↦ usage_error
      | some dir ↦ list_or_end lines_of s.file_names_from (scan_devices s.start_offset devices b)
    ]
  ]

  -- What is known of a scan that starts where `lseek` says is known of the scan of a device.
  pub scan_device-scan_disk :
      (P : Exit × Disk W → Type 0) (path : List ℕ) (offset : Option (List ℕ)) (b : Buffers W)
      (r : Exit × Disk W)
      → ((start : ℕ) (w : W)
          → (dev path).position w ≡ start
          → P (
              scan_disk extract
                (dev path)
                g.scanners
                g.overlap
                b.mem
                start
                b.progress
                (record b.scan { world = w })))
      → scan_device path offset b ≡ scanned r
      → P r
  unfolding scan_device
  scan_device-scan_disk P path offset b r h e =
      opened
        (if bytes_eq path (codes "-")
          then some b.scan.world
          else (opens path).open_device b.scan.world)
        e
    where
      from :
          (o : Option (ℕ × W)) (to : Whence × ℤ) (w : W)
          → (opens path).lseek to w ≡ o
          → scan_from path b o ≡ scanned r
          → P r
      from none to w z e = absurd cc
      from (some (start, w')) to w z e =
          let same : scan_disk extract (dev path) g.scanners g.overlap b.mem start b.progress
                (record b.scan { world = w' })
              ≡ r =
            cc in
          subst P same (h start w' ((opens path).lseek_position to w (start, w') z))

      at : (o : Option (Whence × ℤ)) (w : W) → scan_at path b w o ≡ scanned r → P r
      at none w e = absurd cc
      at (some to) w e = from ((opens path).lseek to w) to w refl e

      opened : (o : Option W) → scan_opened path offset b o ≡ scanned r → P r
      opened none e = absurd cc
      opened (some w) e = at (rich_seek atoll offset) w e
