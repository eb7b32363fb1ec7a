-- ===== src/Dupemap/World.antt =====
-- What the events of src/dupemap.c make of the file system.
use magicrescue.Base.{
  ℕ, ◌≡◌, refl, ◌∙◌, false, ◌&&◌, Bool-cases, List, [], ◌∷◌, ◌++◌, Option-cases, inl, inr,
}
use magicrescue.Dupemap.Dbm.{Dbm}
use magicrescue.Dupemap.Checksum.{Checksum}
use magicrescue.Dupemap.Mode.{mode_readdb, mode_writedb, mode_delete, mode_report, mode_tempdb}
use magicrescue.Dupemap.ScanFile.{
  Event, printed, unlinked, world, File, Scan, Options, has_mode, file_key, report, remove,
  csdb_exists, scan_key, scan_file,
}

world-append :
    {X : Type 0} (unlink : List ℕ → X → X) (x : X) (es fs : List Event)
    → world unlink x (es ++ fs) ≡ world unlink (world unlink x es) fs
world-append unlink x [] fs = refl
world-append unlink x (printed name ∷ es) fs = world-append unlink x es fs
world-append unlink x (unlinked name ∷ es) fs = world-append unlink (unlink name x) es fs

-- Without the mode that deletes, a file leaves the file system as it is.
module _ {X W : Type 0} (unlink : List ℕ → X → X) (dbm : Dbm W) (opt : Options)
    (kept : has_mode opt mode_delete ≡ false) where
  world-report :
      (x : X) (name : List ℕ) (es : List Event)
      → world unlink x (es ++ (report opt name ++ remove opt name)) ≡ world unlink x es
  unfolding report remove
  world-report x name es =
      world-append unlink x es (report opt name ++ remove opt name)
      ∙ elim (Bool-cases (has_mode opt mode_report)) [
        | inl e ↦ rw (kept, e, report, remove) refl
        | inr e ↦ rw (kept, e, report, remove) refl
      ]

  world-only_report :
      (x : X) (name : List ℕ) (es : List Event)
      → world unlink x (es ++ report opt name) ≡ world unlink x es
  unfolding report
  world-only_report x name es =
      world-append unlink x es (report opt name) ∙ elim (Bool-cases (has_mode opt mode_report)) [
        | inl e ↦ rw (e, report) refl
        | inr e ↦ rw (e, report) refl
      ]

  world-scan_key :
      (x : X) (name : List ℕ) (key : Checksum) (s : Scan W)
      → world unlink x (scan_key dbm opt name key s).events ≡ world unlink x s.events
  unfolding scan_key
  world-scan_key x name key s = elim (Bool-cases (has_mode opt mode_tempdb)) [
    | inl temp ↦ elim (Bool-cases (csdb_exists dbm s.db key)) [
      | inl e ↦ rw (scan_key, temp, e) (world-report x name s.events)
      | inr e ↦ rw (scan_key, temp, e) refl
    ]
    | inr temp ↦ elim (Bool-cases (has_mode opt mode_writedb)) [
      | inl write ↦ rw (scan_key, temp, write) (world-only_report x name s.events)
      | inr write ↦ elim (Bool-cases (has_mode opt mode_readdb && csdb_exists dbm s.db key)) [
        | inl e ↦ rw (scan_key, temp, write, e) (world-report x name s.events)
        | inr e ↦ rw (scan_key, temp, write, e) refl
      ]
    ]
  ]

  pub world-scan_file :
      (x : X) (f : File) (s : Scan W)
      → world unlink x (scan_file dbm opt f s).events ≡ world unlink x s.events
  unfolding scan_file
  world-scan_file x f s = elim (Option-cases (file_key opt f)) [
    | inl e ↦ rw (scan_file, e) refl
    | inr (key, e) ↦ rw (scan_file, e) (world-scan_key x f.name key s)
  ]
