-- ===== src/Dupemap/Run.antt =====
-- Which files a run of src/dupemap.c scans.
use magicrescue.Base.{
  ℕ, zero, suc, ◌<◌, ◌≡◌, refl, sym, ap, ◌∙◌, false, Option, none, some, List, [], ◌∷◌, ◌++◌, ◌==◌,
  leb, length, arith, Option-cases, inl, inr,
}
use magicrescue.Base.Int.{ℤ}
use magicrescue.Dupemap.Dbm.{Dbm}
use magicrescue.Dupemap.Mode.{parse_mode}
use magicrescue.Dupemap.Mode.{mode_delete}
use magicrescue.Dupemap.ScanFile.{File, Scan, Options, has_mode, scan_file, scan_files}
use magicrescue.Dupemap.Main.{
  Request, request, parse_options, done, now, drop_last, and_scan, scan_recur, scan_name, scan_list,
  scan_names, scan_paths, has_name, options_of, after_options, dupemap,
}
use magicrescue.Recur.{Files, Recur, recur_open, recur_next}
use magicrescue.Recur.Paths.{IsFine, IsReport, pending, listed, recur_next-IsReport}
use magicrescue.Dupemap.World.{world-scan_file}

module _ {X S W : Type 0} (fs : X → Files S) (stat : X → List ℕ → Option S)
    (file_of : X → List ℕ → S → File) (list_lines : X → List ℕ → Option (List (List ℕ)))
    (unlink : List ℕ → X → X) (x : X) (dbm : Dbm W) (open_db : Option (List ℕ) → ℕ → Option W) where
  abbrev pub files_of : List (List ℕ × S) → List File
  files_of [] = []
  files_of ((name, st) ∷ rest) = file_of x name st ∷ files_of rest

  -- The files that a list names.
  abbrev pub files_in : List (List ℕ) → List File
  files_in [] = []
  files_in (line ∷ lines) = elim (stat x (drop_last line)) [
    | none ↦ files_in lines
    | some st ↦ file_of x (drop_last line) st ∷ files_in lines
  ]

  scan_files-append :
      (opt : Options) (fs gs : List File) (s : Scan W)
      → scan_files dbm opt (fs ++ gs) s ≡ scan_files dbm opt gs (scan_files dbm opt fs s)
  unfolding scan_files
  scan_files-append opt [] gs s = refl
  scan_files-append opt (f ∷ fs) gs s = scan_files-append opt fs gs (scan_file dbm opt f s)

  -- The files of -I, if it can be opened.
  abbrev pub files_from : Option (List ℕ) → Option (List File)
  files_from none = some []
  files_from (some from) = elim (list_lines x from) [
    | none ↦ none
    | some lines ↦ some (files_in lines)
  ]

  -- The first path has to fit into a buffer.
  abbrev pub IsShort : List (List ℕ) → Type 0
  IsShort [] = Unit
  IsShort (path ∷ paths) = length path < (fs x).path_max

  recur_open-short :
      (path : List ℕ) (paths : List (List ℕ))
      → length path < (fs x).path_max
      → recur_open (fs x) (path ∷ paths) ≡ some (record { list = path ∷ paths; stack = none })
  unfolding recur_open
  recur_open-short path paths h =
      let l : leb (fs x).path_max (length path) ≡ false = ground arith in rw (l) refl

  -- The file system is at first, and with such a mode stays, in the state `x`.
  module _ (opt : Options) (kept : has_mode opt mode_delete ≡ false) where
    abbrev IsAtStart : Scan W → Type 0
    IsAtStart s = now fs stat file_of list_lines unlink x dbm open_db s ≡ x

    scan_file-IsAtStart : (f : File) (s : Scan W) → IsAtStart s → IsAtStart (scan_file dbm opt f s)
    scan_file-IsAtStart f s at = world-scan_file unlink dbm opt kept x f s ∙ at

    scan_files-IsAtStart :
        (gs : List File) (s : Scan W) → IsAtStart s → IsAtStart (scan_files dbm opt gs s)
    unfolding scan_files
    scan_files-IsAtStart [] s at = at
    scan_files-IsAtStart (g ∷ gs) s at =
        scan_files-IsAtStart gs (scan_file dbm opt g s) (scan_file-IsAtStart g s at)

    and_scan-files :
        (xs : List (List ℕ × S)) (next : Recur → Scan W → Option (Scan W)) (n : ℕ)
        (r : Option ((List ℕ × S) × Recur)) (s : Scan W)
        → IsAtStart s
        → ((u : Recur) (t : Scan W)
            → IsAtStart t
            → IsFine (fs x) u
            → length (pending (fs x) u) < n
            → next u t ≡ some (scan_files dbm opt (files_of (pending (fs x) u)) t))
        → length xs < suc n
        → IsReport (fs x) xs r
        → and_scan fs stat file_of list_lines unlink x dbm open_db opt next s r
          ≡ some (scan_files dbm opt (files_of xs) s)
    unfolding scan_files
    and_scan-files xs next n none s at h l e = rw (e) refl
    and_scan-files xs next n (some ((name, st), u)) s at h l (e, fine, fits) =
        let l' : length (pending (fs x) u) < n = omega (arith, ap length e) in
        ap (λ y. next u (scan_file dbm opt (file_of y name st) s)) at
        ∙ h u (scan_file dbm opt (file_of x name st) s)
            (scan_file-IsAtStart (file_of x name st) s at) fine l'
        ∙ ap (λ ys. some (scan_files dbm opt (files_of ys) s)) (sym e)

    scan_recur-files :
        (n : ℕ) (r : Recur) (s : Scan W)
        → IsAtStart s
        → IsFine (fs x) r
        → length (pending (fs x) r) < n
        → scan_recur fs stat file_of list_lines unlink x dbm open_db n opt r s
          ≡ some (scan_files dbm opt (files_of (pending (fs x) r)) s)
    unfolding scan_recur
    scan_recur-files zero r s at fine l = absurd (omega arith)
    scan_recur-files (suc n) r s at fine l =
        ap
          (λ y.
            and_scan fs stat file_of list_lines unlink x dbm open_db opt
              (scan_recur fs stat file_of list_lines unlink x dbm open_db n opt) s
              (recur_next (fs y) r))
          at
        ∙ and_scan-files (pending (fs x) r)
            (scan_recur fs stat file_of list_lines unlink x dbm open_db n opt) n
            (recur_next (fs x) r) s at (λ u t h ok k. scan_recur-files n u t h ok k) l
            (recur_next-IsReport (fs x) r fine)

    scan_list-files :
        (lines : List (List ℕ)) (s : Scan W)
        → IsAtStart s
        → scan_list fs stat file_of list_lines unlink x dbm open_db opt lines s
          ≡ scan_files dbm opt (files_in lines) s
    unfolding scan_list scan_files
    scan_list-files [] s at = refl
    scan_list-files (line ∷ lines) s at = elim (Option-cases (stat x (drop_last line))) [
      | inl e ↦ rw (files_in, scan_name, at, e) (scan_list-files lines s at)
      | inr (st, e) ↦
          let f = file_of x (drop_last line) st in
          rw (files_in, scan_name, at, e, at)
            (scan_list-files lines (scan_file dbm opt f s) (scan_file-IsAtStart f s at))
    ]

    scan_names-files :
        (from : Option (List ℕ)) (gs : List File) (s : Scan W)
        → IsAtStart s
        → files_from from ≡ some gs
        → scan_names fs stat file_of list_lines unlink x dbm open_db opt from s
          ≡ done (scan_files dbm opt gs s)
    unfolding scan_names scan_files
    scan_names-files none gs s at e = let same : [] ≡ gs = cc in rw (← same) refl
    scan_names-files (some from) gs s at e = elim (Option-cases (list_lines x from)) [
      | inl z ↦ let e' : none ≡ some gs = rw (z, files_from) at e in absurd cc
      | inr (lines, z) ↦
          let e' : some (files_in lines) ≡ some gs = rw (z, files_from) at e in
          let same : files_in lines ≡ gs = cc in
          rw (scan_names, at, z, ← same) (ap done (scan_list-files lines s at))
    ]

    scan_paths-files :
        (fuel : ℕ) (from : Option (List ℕ)) (paths : List (List ℕ)) (gs : List File) (s : Scan W)
        → IsAtStart s
        → IsShort paths
        → files_from from ≡ some gs
        → length (listed (fs x) paths) < fuel
        → scan_paths fs stat file_of list_lines unlink x dbm open_db fuel opt from paths s
          ≡ done (scan_files dbm opt (files_of (listed (fs x) paths) ++ gs) s)
    unfolding scan_paths listed
    scan_paths-files fuel from [] gs s at h e l = scan_names-files from gs s at e
    scan_paths-files fuel from (path ∷ paths) gs s at h e l =
        let found = files_of (listed (fs x) (path ∷ paths)) in
        rw
          (
            scan_paths,
            at,
            recur_open-short path paths h,
            scan_recur-files fuel (record { list = path ∷ paths; stack = none }) s at
                (λ u z. absurd cc) l,
            scan_files-append opt found gs s,
          )
          (scan_names-files from gs (scan_files dbm opt found s) (scan_files-IsAtStart found s at)
            e)

  -- A run whose options are understood, with an operation that is known and a database that can be
  -- opened, ends well when it has scanned the files below its paths, in the order in which a traversal
  -- lists them, and then the files that the list of -I names. The operation does not delete, since
  -- a file that the run itself has removed is not found again; the first path fits into PATH_MAX bytes,
  -- the list can be opened, and nothing else changes the files while the program runs.
  pub dupemap-scan_files :
      (atoll : List ℕ → ℤ) (fuel : ℕ) (options : List (ℕ × List ℕ)) (operation : List ℕ)
      (paths : List (List ℕ)) (q : Request) (w : W) (gs : List File)
      → parse_options atoll options request ≡ some q
      → (parse_mode operation (has_name q.dbname) == 0) ≡ false
      → has_mode (options_of q (parse_mode operation (has_name q.dbname))) mode_delete ≡ false
      → open_db q.dbname (parse_mode operation (has_name q.dbname)) ≡ some w
      → IsShort paths
      → files_from q.file_names_from ≡ some gs
      → length (listed (fs x) paths) < fuel
      → dupemap fs stat file_of list_lines unlink x dbm open_db atoll fuel options
          (operation ∷ paths)
        ≡ done (
            scan_files dbm
              (options_of q (parse_mode operation (has_name q.dbname)))
              (files_of (listed (fs x) paths) ++ gs)
              (record { db = w; events = [] }))
  unfolding dupemap after_options
  dupemap-scan_files atoll fuel options operation paths q w gs parsed known kept opened short list
        l =
      rw (parsed, dupemap, known, opened, after_options)
        (scan_paths-files (options_of q (parse_mode operation (has_name q.dbname))) kept fuel
          q.file_names_from paths gs (record { db = w; events = [] }) refl short list l)
