-- ===== src/Dupemap/ScanFile.antt =====
-- `scan_file` of src/dupemap.c and the loop that calls it, with `csdb_exists` and `csdb_store`.
pub mod Duplicates
use magicrescue.Base.{
  ℕ, ◌+◌, ◌-◌, bit_and, Bool, true, false, ◌&&◌, not, Option, none, some, List, [], ◌∷◌, ◌++◌, ltb,
  leb, ◌==◌, if◌then◌else◌, arith,
}
use magicrescue.Dupemap.Checksum.{Checksum, Reads, checksum_calc}
use magicrescue.Dupemap.Dbm.{Dbm}
use magicrescue.Dupemap.Mode.{mode_readdb, mode_writedb, mode_delete, mode_report, mode_tempdb}

-- What the program does with a name: a line of output, or `unlink`.
pub data Event : Type 0 where
  printed unlinked : List ℕ → Event

-- What the events make of the state of the file system, which a name that is removed changes.
abbrev pub world : {X : Type 0} → (List ℕ → X → X) → X → List Event → X
world unlink x [] = x
world unlink x (printed name ∷ events) = world unlink x events
world unlink x (unlinked name ∷ events) = world unlink (unlink name x) events

-- A file: its name, what `stat` says of it, and what opening and reading it gives.
pub record File : Type 0 where
  pub name : List ℕ
  pub st_mode : ℕ
  pub st_size : ℕ
  pub reads : Option Reads

pub record Scan (W : Type 0) : Type 0 where
  pub db : W
  pub events : List Event

-- The globals `mode`, `min_size` and `max_size`.
pub record Options : Type 0 where
  pub mode : ℕ
  pub min_size : ℕ
  pub max_size : ℕ

abbrev pub has_mode : Options → ℕ → Bool
has_mode opt bit = not (bit_and opt.mode bit == 0)

abbrev s_ifreg : ℕ
s_ifreg = 0x8000

-- The checksum of a file that passes the guards.
unfoldable pub file_key : Options → File → Option Checksum
file_key opt file =
    if not (bit_and file.st_mode s_ifreg == 0)
      && (leb opt.min_size file.st_size
          && (if ltb 0 opt.max_size then leb file.st_size opt.max_size else true))
    then checksum_calc file.reads
    else none

unfoldable pub report : Options → List ℕ → List Event
report opt name = if has_mode opt mode_report then printed name ∷ [] else []

unfoldable pub remove : Options → List ℕ → List Event
remove opt name = if has_mode opt mode_delete then unlinked name ∷ [] else []

module _ {W : Type 0} (dbm : Dbm W) where
  unfoldable pub csdb_exists : W → Checksum → Bool
  csdb_exists db key = elim (dbm.fetch key db) [ none ↦ false | some v ↦ true ]

  -- DBM_KEY_LEN is the length of the value.
  unfoldable pub csdb_store : W → Checksum → W
  csdb_store db key = dbm.store key [] db

  unfoldable pub scan_key : Options → List ℕ → Checksum → Scan W → Scan W
  unfolding csdb_exists csdb_store report remove
  scan_key opt name key s =
      if has_mode opt mode_tempdb
      then (if csdb_exists s.db key
          then record s { events = s.events ++ (report opt name ++ remove opt name) }
          else record s { db = csdb_store s.db key })
      else if has_mode opt mode_writedb
      then record { db = csdb_store s.db key; events = s.events ++ report opt name }
      else if has_mode opt mode_readdb && csdb_exists s.db key
      then record s { events = s.events ++ (report opt name ++ remove opt name) }
      else s

  unfoldable pub scan_file : Options → File → Scan W → Scan W
  unfolding file_key scan_key
  scan_file opt file s = elim (file_key opt file) [
    | none ↦ s
    | some key ↦ scan_key opt file.name key s
  ]

  -- `while (recur_next (recur, name, &st) == 0) scan_file (name, &st, &db);`
  unfoldable pub scan_files : Options → List File → Scan W → Scan W
  unfolding scan_file
  scan_files opt [] s = s
  scan_files opt (file ∷ files) s = scan_files opt files (scan_file opt file s)
