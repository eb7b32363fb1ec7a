-- ===== src/Tests/Commands.antt =====
-- Runs of the command lines of `magicrescue` and `dupemap`.
use mathlib.Core.Path.{subst}
use magicrescue.Base.{
  ◌+◌, ℕ, ◌≤◌, ◌≡◌, refl, Bool, true, false, Option, none, some, List, [], ◌∷◌, ◌++◌, ltb,
  if◌then◌else◌, length, arith, All,
}
use magicrescue.Base.Int.{ℤ, pos, to_nat}
use magicrescue.Recipe.{recipe_init, op_string}
use magicrescue.Scanner.{Scanner, scanner_new, scan_block}
use magicrescue.ScanDisk.{Disk, Exit, scan_disk}
use magicrescue.ScanDisk.Genuine.{Genuine}
use magicrescue.Parse.{
  Globals, Parse, Parsed, ok, failed, undefined, negative_offset, parse_start, parse_lines,
}
use magicrescue.Parse.Scanf.{codes, bytes_eq}
use magicrescue.Program.Options.{Settings, settings, open_recipe, parse_options}
use magicrescue.Program.Ready.{max_overlap}
use magicrescue.Program.Command.{scan_device-Genuine}
use magicrescue.Program.Devices.{Opens, Buffers, scan_device}
use magicrescue.Util.Seek.{Whence, seek_set, seek_cur, seek_end, rich_seek}
use magicrescue.Device.{Device}
use magicrescue.Dupemap.Checksum.{Checksum}
use magicrescue.Dupemap.ScanFile.{Event, unlinked, File, scan_files}
use magicrescue.Dupemap.Main.{Request, request, Outcome, done, options_of, dupemap}
use magicrescue.Dupemap.Run.{files_of, dupemap-scan_files}
use magicrescue.Recur.Paths.{listed}
use magicrescue.Tests.Concrete.{file, the_device, two_bytes, start, list_dbm}
use magicrescue.Tests.Trees.{tree, stat_of}

abbrev recipe_lines : List (List ℕ)
recipe_lines = codes "1 string ab\n" ∷ codes "command cat\n" ∷ []

abbrev atol : List ℕ → ℤ
atol s = pos 512

abbrev mode_at : List ℕ → Option ℕ
mode_at path = if ltb 1 (length path) then some 0x41ED else some 0x81A4

abbrev names_in : List ℕ → Option (List (List ℕ))
names_in path = none

abbrev lines_of : List ℕ → Option (List (List ℕ))
lines_of path = some recipe_lines

Grown : (overlap : ℕ) → Parsed Parse → Type 0
Grown overlap (ok st) = st.overlap ≡ (if ltb overlap 3 then 3 else overlap)
Grown overlap failed = Unit
Grown overlap undefined = Unit
Grown overlap negative_offset = Unit

recipe_lines-Grown :
    (name : List ℕ) (sc : Option Scanner) (overlap : ℕ)
    → Grown overlap (parse_lines (parse_start sc name overlap) recipe_lines)
unfolding Grown parse_lines magicrescue.Parse.Scanf.scan_directive magicrescue.Parse.Scanf.bytes_eq
    magicrescue.Parse.make_scanner magicrescue.Util.Escape.string_init
    magicrescue.Parse.Scanf.scan_word_after magicrescue.Parse.Scanf.strncmp_eq
    magicrescue.Parse.make_operation
recipe_lines-Grown name none overlap = refl
recipe_lines-Grown name (some sc) overlap = refl

moderate :
    (path name : List ℕ) (lines : List (List ℕ)) (sc : Option Scanner) (g : Globals) (st : Parse)
    → open_recipe atol mode_at names_in lines_of none path ≡ some lines
    → g.overlap ≤ max_overlap
    → parse_lines (parse_start sc name g.overlap) lines ≡ ok st
    → st.overlap ≤ max_overlap
unfolding open_recipe Grown
moderate path name lines sc g st e h p =
    let same : recipe_lines ≡ lines = cc in
    let all =
      subst (λ ls. Grown g.overlap (parse_lines (parse_start sc name g.overlap) ls)) same
        (recipe_lines-Grown name sc g.overlap) in
    let last : st.overlap ≡ (if ltb g.overlap 3 then 3 else g.overlap) =
      subst (Grown g.overlap) p all in
    ground arith

abbrev the_settings : Settings
the_settings = record settings {
  globals = record {
    scanners =
        record scanner_new {
          func = scan_block 512;
          recipes =
              record recipe_init {
                name = codes "r";
                ops = record { func = op_string (codes "ab"); offset = 1 } ∷ [];
                command = some (codes "cat");
              }
              ∷ [];
        }
        ∷ [];
    overlap = 8;
  };
  global_scanner = some (record scanner_new { func = scan_block 512 });
  output_dir = some (codes "out");
}

abbrev the_options : List (ℕ × List ℕ)
the_options = (b'b', codes "512") ∷ (b'd', codes "out") ∷ (b'r', codes "r") ∷ []

parse_options_run :
    parse_options atol mode_at names_in lines_of none the_options settings ≡ ok the_settings
unfolding parse_options magicrescue.Parse.parse_recipe magicrescue.Parse.Scanf.scan_directive
    magicrescue.Parse.make_operation magicrescue.Parse.Scanf.bytes_eq
    magicrescue.Util.Escape.string_init magicrescue.Parse.Scanf.scan_word_after
    magicrescue.Parse.Scanf.strncmp_eq magicrescue.Parse.Registry.add_recipe
    magicrescue.Parse.Registry.scanner_add_or_reuse
parse_options_run = refl

abbrev only_device : List ℕ → Device ℕ
only_device path = the_device

-- The position is all the state.
abbrev sought : Whence × ℤ → ℕ → Option (ℕ × ℕ)
sought (seek_set, n) w = some (to_nat n, to_nat n)
sought (seek_cur, n) w = some (w + to_nat n, w + to_nat n)
sought (seek_end, n) w = none

sought_position :
    (to : Whence × ℤ) (w : ℕ) (p : ℕ × ℕ) → sought to w ≡ some p → the_device.position p.1 ≡ p.0
sought_position (seek_set, n) w p e =
    let same : (to_nat n, to_nat n) ≡ p = cc in subst (λ q. q.1 ≡ q.0) same refl
sought_position (seek_cur, n) w p e =
    let same : (w + to_nat n, w + to_nat n) ≡ p = cc in subst (λ q. q.1 ≡ q.0) same refl
sought_position (seek_end, n) w p e = absurd cc

abbrev opened : (path : List ℕ) → Opens ℕ (only_device path)
opened path = record {
  open_device = λ w. some 0;
  lseek = sought;
  lseek_position = λ to w p e. sought_position to w p e;
}

abbrev buffers : Buffers ℕ
buffers = record { mem = file; progress = 0; scan = start }

abbrev the_scan : Exit × Disk ℕ
the_scan = scan_disk two_bytes the_device the_settings.globals.scanners 8 file 0 0 start

scan_device-Genuine_example :
    All (Genuine two_bytes the_device the_settings.globals.scanners 8) the_scan.1.scan.found
unfolding scan_device rich_seek magicrescue.Parse.Scanf.bytes_eq
scan_device-Genuine_example =
    scan_device-Genuine atol mode_at names_in lines_of none moderate two_bytes (λ s. pos 0)
      only_device opened the_options the_settings (codes "-") (some (codes "0")) buffers the_scan
      parse_options_run tt refl

-- A file of two bytes, or a directory.
abbrev file_of : List (List ℕ) → List ℕ → Bool → File
file_of gone name dir = record {
  name = name;
  st_mode = if dir then 0x41ED else 0x81A4;
  st_size = 2;
  reads = some (record { chunks = codes "hi" ∷ []; error = false });
}

abbrev open_db : Option (List ℕ) → ℕ → Option (List Checksum)
open_db name mode = some []

-- The state is the list of the paths that were removed, and `stat` does not find those.
abbrev is_gone : List (List ℕ) → List ℕ → Bool
is_gone [] path = false
is_gone (p ∷ ps) path = if bytes_eq p path then true else is_gone ps path

abbrev stat_in : List (List ℕ) → List ℕ → Option Bool
stat_in gone path = if is_gone gone path then none else stat_of path

abbrev unlink : List ℕ → List (List ℕ) → List (List ℕ)
unlink path gone = path ∷ gone

abbrev list_lines : List (List ℕ) → List ℕ → Option (List (List ℕ))
list_lines gone from = some (codes "d/a\n" ∷ codes "d/c\n" ∷ [])

listed_count : length (listed tree (codes "d" ∷ [])) ≡ 3
unfolding listed magicrescue.Parse.Scanf.bytes_eq magicrescue.Recur.Walk.walk
    magicrescue.Recur.strip_slash
listed_count = refl

abbrev the_request : Request
the_request = record request { file_names_from = some (codes "l"); min_size = 512 }

dupemap-scan_files_example :
    dupemap
      (λ gone. tree)
      stat_in
      file_of
      list_lines
      unlink
      []
      list_dbm
      open_db
      atol
      5
      ((b'm', codes "512") ∷ (b'I', codes "l") ∷ [])
      (codes "report" ∷ codes "d" ∷ [])
    ≡ done (
        scan_files list_dbm
          (options_of the_request 24)
          (files_of
              (λ gone. tree)
              stat_in
              file_of
              list_lines
              unlink
              []
              list_dbm
              open_db
              (listed tree (codes "d" ∷ []))
            ++ file_of [] (codes "d/a") false ∷ [])
          (record { db = []; events = [] }))
unfolding magicrescue.Dupemap.Main.parse_options magicrescue.Dupemap.Mode.parse_mode
    magicrescue.Parse.Scanf.bytes_eq
dupemap-scan_files_example =
    dupemap-scan_files (λ gone. tree) stat_in file_of list_lines unlink [] list_dbm open_db atol 5
      ((b'm', codes "512") ∷ (b'I', codes "l") ∷ []) (codes "report") (codes "d" ∷ []) the_request
      [] (file_of [] (codes "d/a") false ∷ []) refl refl refl refl (omega arith) refl
      (let n = listed_count in omega arith)

abbrev twice : List (List ℕ) → List ℕ → Option (List (List ℕ))
twice gone from = some (codes "d/a\n" ∷ codes "d/a\n" ∷ [])

abbrev events_of : Outcome (List Checksum) → List Event
events_of (done s) = s.events
events_of other = []

-- Of three files that are the same, the second in the tree is removed; the first is when the list names
-- it again, and is not found when the list names it once more.
dupemap_deletes :
    events_of (
      dupemap
        (λ gone. tree)
        stat_in
        file_of
        twice
        unlink
        []
        list_dbm
        open_db
        atol
        5
        ((b'I', codes "l") ∷ [])
        (codes "delete" ∷ codes "d" ∷ []))
    ≡ unlinked (codes "d/s/b") ∷ unlinked (codes "d/a") ∷ []
unfolding dupemap magicrescue.Dupemap.Mode.parse_mode bytes_eq magicrescue.Recur.recur_open
    magicrescue.Recur.recur_next magicrescue.Dupemap.ScanFile.scan_file
    magicrescue.Dupemap.Checksum.checksum_calc magicrescue.Tests.Concrete.find_key
dupemap_deletes = refl
