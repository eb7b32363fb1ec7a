-- ===== src/Tests/Duplicates.antt =====
-- The theorems on `dupemap`, at two files.
use magicrescue.Base.{◌-◌, ◌^◌, ◌≡◌, ◌⊎◌, refl, false, some, List, [], ◌∷◌, ◌++◌, length, arith}
use magicrescue.Parse.Scanf.{codes}
use magicrescue.Dupemap.Checksum.{Checksum, checksum_calc}
use magicrescue.Dupemap.Checksum.Cksum.{joined, cksum_register, checksum_calc-cksum}
use magicrescue.Dupemap.Mode.{tokens, parse_mode}
use magicrescue.Dupemap.Mode.Table.{asks, mode_for, parse_mode-mode_for}
use magicrescue.Dupemap.ScanFile.{
  File, Scan, Options, file_key, report, remove, scan_files, csdb_exists,
}
use magicrescue.Dupemap.ScanFile.Duplicates.{Seen, scan_files-duplicates, scan_files-readdb}
use magicrescue.Tests.Concrete.{list_dbm, find_key}

-- Two files that hold `hi`, read in different pieces.
abbrev first : File
first = record {
  name = codes "a";
  st_mode = 0x81A4;
  st_size = 2;
  reads = some (record { chunks = codes "hi" ∷ []; error = false });
}

abbrev second : File
second = record {
  name = codes "b";
  st_mode = 0x81A4;
  st_size = 2;
  reads = some (record { chunks = codes "h" ∷ codes "i" ∷ []; error = false });
}

abbrev temp_options : Options
temp_options = record { mode = 20; min_size = 1; max_size = 0 }

abbrev read_options : Options
read_options = record { mode = 5; min_size = 1; max_size = 0 }

abbrev nothing_yet : Scan (List Checksum)
nothing_yet = record { db = []; events = [] }

abbrev hi_key : Checksum
hi_key = record { crc = 2352138605; filesize = 2 }

checksum_calc-cksum_example :
    checksum_calc second.reads
    ≡ some (record {
      crc = 2 ^ 32 - 1 - cksum_register 0 (joined (codes "h" ∷ codes "i" ∷ []) ++ 2 ∷ []);
      filesize = length (joined (codes "h" ∷ codes "i" ∷ []));
    })
unfolding joined
checksum_calc-cksum_example =
    checksum_calc-cksum (codes "h" ∷ codes "i" ∷ []) (2 ∷ []) (omega arith, (omega arith, tt))
      (record { value = refl; bytes = (omega arith, tt); minimal = omega arith })

parse_mode-mode_for_example :
    parse_mode (codes "delete,report") false
    ≡ mode_for false
        (asks (codes "scan") (tokens [] (codes "delete,report")))
        (asks (codes "report") (tokens [] (codes "delete,report")))
        (asks (codes "delete") (tokens [] (codes "delete,report")))
parse_mode-mode_for_example = parse_mode-mode_for (codes "delete,report") false

scan_files-readdb_example :
    (scan_files list_dbm read_options (first ∷ second ∷ []) nothing_yet).db ≡ []
scan_files-readdb_example =
    scan_files-readdb list_dbm read_options (first ∷ second ∷ []) nothing_yet refl refl

-- The checksum that `cksum` prints for these bytes.
first_key : file_key temp_options first ≡ some hi_key
unfolding file_key checksum_calc
first_key = refl

second_key : file_key temp_options second ≡ some hi_key
unfolding file_key checksum_calc
second_key = refl

-- The second file is a duplicate of the first.
scan_files-duplicates_example :
    (Seen temp_options hi_key (first ∷ [])
      × (scan_files list_dbm temp_options (first ∷ second ∷ []) nothing_yet).events
        ≡ (scan_files list_dbm temp_options (first ∷ []) nothing_yet).events
          ++ (report temp_options second.name ++ remove temp_options second.name))
    ⊎ (¬ Seen temp_options hi_key (first ∷ [])
        × (scan_files list_dbm temp_options (first ∷ second ∷ []) nothing_yet).events
          ≡ (scan_files list_dbm temp_options (first ∷ []) nothing_yet).events)
unfolding csdb_exists find_key
scan_files-duplicates_example =
    scan_files-duplicates list_dbm temp_options (first ∷ []) second nothing_yet hi_key refl
      (λ k. refl) second_key
