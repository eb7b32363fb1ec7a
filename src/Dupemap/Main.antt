-- ===== src/Dupemap/Main.antt =====
-- `main` of src/dupemap.c: the options, and the files that are scanned. `getopt` has taken the options
-- apart: each is its letter and its argument, and they are followed by the other arguments.
use magicrescue.Base.{
  ℕ, zero, suc, Bool, true, false, Option, none, some, List, [], ◌∷◌, ◌==◌, if◌then◌else◌,
}
use magicrescue.Base.Int.{ℤ, pos, negsuc, to_nat}
use magicrescue.Dupemap.Dbm.{Dbm}
use magicrescue.Dupemap.Mode.{parse_mode}
use magicrescue.Dupemap.ScanFile.{File, Scan, Options, scan_file, world}
use magicrescue.Recur.{Files, Recur, recur_open, recur_next}

-- The variables that the options set.
pub record Request : Type 0 where
  pub dbname : Option (List ℕ)
  pub file_names_from : Option (List ℕ)
  pub min_size : ℕ
  pub max_size : ℕ

abbrev pub request : Request
request = record { dbname = none; file_names_from = none; min_size = 1; max_size = 0 }

-- A size that is 0 or less is 1.
abbrev pub at_least_one : ℤ → ℕ
at_least_one (pos n) = if n == 0 then 1 else n
at_least_one (negsuc n) = 1

module _ (atoll : List ℕ → ℤ) where
  unfoldable pub set_option : ℕ → List ℕ → Request → Option Request
  set_option c optarg q =
      if c == b'd'
      then some (record q { dbname = some optarg })
      else if c == b'I'
      then some (record q { file_names_from = some optarg })
      else if c == b'm'
      then some (record q { min_size = at_least_one (atoll optarg) })
      else if c == b'M'
      then some (record q { max_size = to_nat (atoll optarg) })
      else none

  unfoldable pub parse_options : List (ℕ × List ℕ) → Request → Option Request
  unfolding set_option
  parse_options [] q = some q
  parse_options ((c, optarg) ∷ rest) q = elim (set_option c optarg q) [
    | none ↦ none
    | some q' ↦ parse_options rest q'
  ]

-- `done` is the end of the program, `no_list` the failure to open the file of -I after a scan. The last
-- stands for a loop that has not ended.
pub data Outcome (W : Type 0) : Type 0 where
  usage_error bad_operation no_database : Outcome W
  no_list done : Scan W → Outcome W
  out_of_fuel : Outcome W

-- `fgets` leaves the newline, which is cut off.
abbrev pub drop_last : List ℕ → List ℕ
drop_last [] = []
drop_last (c ∷ []) = []
drop_last (c ∷ d ∷ cs) = c ∷ drop_last (d ∷ cs)

abbrev pub has_name : Option (List ℕ) → Bool
has_name none = false
has_name (some name) = true

abbrev pub options_of : Request → ℕ → Options
options_of q mode = record { mode = mode; min_size = q.min_size; max_size = q.max_size }

-- The file system is in the state `x` at the start, and `unlink` changes it. In a state, `stat` follows
-- links, unlike the `lstat` of `fs`; `file_of` is the file with that name and status; `list_lines` is
-- what `fgets` reads from a list of names once that is open. `open_db` is `csdb_open`, or
-- `csdb_open_tempdb` without a name.
module _ {X S W : Type 0} (fs : X → Files S) (stat : X → List ℕ → Option S)
    (file_of : X → List ℕ → S → File) (list_lines : X → List ℕ → Option (List (List ℕ)))
    (unlink : List ℕ → X → X) (x : X) (dbm : Dbm W) (open_db : Option (List ℕ) → ℕ → Option W) where
  -- The state of the file system after what has been done.
  abbrev pub now : Scan W → X
  now s = world unlink x s.events

  abbrev pub and_scan :
      Options
      → (Recur → Scan W → Option (Scan W))
      → Scan W
      → Option ((List ℕ × S) × Recur)
      → Option (Scan W)
  and_scan opt next s none = some s
  and_scan opt next s (some ((name, st), r)) =
      next r (scan_file dbm opt (file_of (now s) name st) s)

  -- The loop over `recur_next`, on fuel.
  unfoldable pub scan_recur : ℕ → Options → Recur → Scan W → Option (Scan W)
  scan_recur zero opt r s = none
  scan_recur (suc fuel) opt r s = and_scan opt (scan_recur fuel opt) s (recur_next (fs (now s)) r)

  abbrev pub scan_name : Options → List ℕ → Scan W → Scan W
  scan_name opt name s = elim (stat (now s) name) [
    | none ↦ s
    | some st ↦ scan_file dbm opt (file_of (now s) name st) s
  ]

  -- The loop over `fgets`.
  unfoldable pub scan_list : Options → List (List ℕ) → Scan W → Scan W
  scan_list opt [] s = s
  scan_list opt (line ∷ lines) s = scan_list opt lines (scan_name opt (drop_last line) s)

  unfoldable pub scan_names : Options → Option (List ℕ) → Scan W → Outcome W
  unfolding scan_list
  scan_names opt none s = done s
  scan_names opt (some from) s = elim (list_lines (now s) from) [
    | none ↦ no_list s
    | some lines ↦ done (scan_list opt lines s)
  ]

  abbrev pub or_out_of_fuel : (Scan W → Outcome W) → Option (Scan W) → Outcome W
  or_out_of_fuel next none = out_of_fuel
  or_out_of_fuel next (some s) = next s

  unfoldable pub scan_paths : ℕ → Options → Option (List ℕ) → List (List ℕ) → Scan W → Outcome W
  unfolding scan_recur scan_names
  scan_paths fuel opt from [] s = scan_names opt from s
  scan_paths fuel opt from (path ∷ paths) s = elim (recur_open (fs (now s)) (path ∷ paths)) [
    | none ↦ done s
    | some r ↦ or_out_of_fuel (scan_names opt from) (scan_recur fuel opt r s)
  ]

  unfoldable pub after_options : ℕ → Request → List (List ℕ) → Outcome W
  unfolding scan_paths
  after_options fuel q [] = usage_error
  after_options fuel q (operation ∷ paths) =
      let mode = parse_mode operation (has_name q.dbname) in
      if mode == 0 then bad_operation else elim (open_db q.dbname mode) [
        | none ↦ no_database
        | some w ↦
            scan_paths fuel (options_of q mode) q.file_names_from paths
              (record { db = w; events = [] })
      ]

  unfoldable pub dupemap : (List ℕ → ℤ) → ℕ → List (ℕ × List ℕ) → List (List ℕ) → Outcome W
  unfolding parse_options after_options
  dupemap atoll fuel options args = elim (parse_options atoll options request) [
    | none ↦ usage_error
    | some q ↦ after_options fuel q args
  ]
