-- ===== src/Program/Command.antt =====
-- From the command line of src/magicrescue.c to what a scan reports.
use magicrescue.Base.{
  ℕ, ◌≤◌, ◌≡◌, Option, some, List, [], ◌∷◌, ◌==◌, arith, Bool-cases, inl, inr, All, All-mono,
}
use magicrescue.Base.Int.{ℤ}
use magicrescue.Recipe.{Recipe}
use magicrescue.Scanner.{Scanner}
use magicrescue.Scanner.Magic.{IsReady}
use magicrescue.Device.{Device}
use magicrescue.ScanDisk.Genuine.{Genuine, scan_disk-Genuine}
use magicrescue.Parse.{Parsed, ok, Parse, Globals, parse_start, parse_lines}
use magicrescue.Parse.Fits.{ScannerFits, Ensures, Ensures-bind}
use magicrescue.Program.{All-Any, ScannerFits-Fits}
use magicrescue.Program.Options.{
  Settings, settings, open_recipe, parse_named, set_option, parse_options,
}
use magicrescue.Program.Devices.{Opens, Buffers, scanned, scan_device, scan_device-scan_disk}
use magicrescue.ScanDisk.{Disk, Exit}
use magicrescue.Program.Ready.{
  max_overlap, IsReadySettings, set_block-IsReadySettings, set_output_dir-IsReadySettings,
  with_globals-IsReadySettings, parse_named-Leaves,
}

module _ (atol : List ℕ → ℤ) (stat_mode : List ℕ → Option ℕ)
    (opendir : List ℕ → Option (List (List ℕ))) (lines_of : List ℕ → Option (List (List ℕ)))
    (recipe_path : Option (List ℕ))
    (moderate : (file name : List ℕ) (lines : List (List ℕ)) (sc : Option Scanner) (g : Globals)
        (st : Parse)
      → open_recipe atol stat_mode opendir lines_of recipe_path file ≡ some lines
      → g.overlap ≤ max_overlap
      → parse_lines (parse_start sc name g.overlap) lines ≡ ok st
      → st.overlap ≤ max_overlap) where
  set_option-IsReadySettings :
      (c : ℕ) (optarg : List ℕ) (s : Settings)
      → IsReadySettings s
      → Ensures IsReadySettings (set_option atol stat_mode opendir lines_of recipe_path c optarg s)
  unfolding set_option
  set_option-IsReadySettings c optarg s h = elim (Bool-cases (c == b'b')) [
    | inl e ↦
        rw (e, set_option)
          (set_block-IsReadySettings atol stat_mode opendir lines_of recipe_path moderate s
            (atol optarg) h)
    | inr b ↦ elim (Bool-cases (c == b'd')) [
      | inl e ↦
          rw (b, e, set_option)
            (set_output_dir-IsReadySettings atol stat_mode opendir lines_of recipe_path moderate s
              optarg h)
      | inr d ↦ elim (Bool-cases (c == b'r')) [
        | inl e ↦
            rw (b, d, e, set_option)
              (with_globals-IsReadySettings atol stat_mode opendir lines_of recipe_path moderate s
                (parse_named atol stat_mode opendir lines_of recipe_path s.global_scanner optarg
                  s.globals)
                h.scanner_fits
                (parse_named-Leaves atol stat_mode opendir lines_of recipe_path moderate
                  s.global_scanner optarg s.globals h.globals_ready h.scanner_fits))
        | inr r ↦ elim (Bool-cases (c == b'I')) [
          | inl e ↦
              rw (b, d, r, e, set_option)
                (record { globals_ready = h.globals_ready; scanner_fits = h.scanner_fits })
          | inr i ↦ elim (Bool-cases (c == b'M')) [
            | inl e ↦
                rw (b, d, r, i, e, set_option)
                  (record { globals_ready = h.globals_ready; scanner_fits = h.scanner_fits })
            | inr m ↦ elim (Bool-cases (c == b'O')) [
              | inl e ↦
                  rw (b, d, r, i, m, e, set_option)
                    (record { globals_ready = h.globals_ready; scanner_fits = h.scanner_fits })
              | inr o ↦ rw (b, d, r, i, m, o, set_option) tt
            ]
          ]
        ]
      ]
    ]
  ]

  parse_options-Ensures :
      (options : List (ℕ × List ℕ)) (s : Settings)
      → IsReadySettings s
      → Ensures IsReadySettings
          (parse_options atol stat_mode opendir lines_of recipe_path options s)
  unfolding parse_options
  parse_options-Ensures [] s h = h
  parse_options-Ensures ((c, optarg) ∷ rest) s h =
      Ensures-bind IsReadySettings IsReadySettings
        (set_option atol stat_mode opendir lines_of recipe_path c optarg s)
        (λ s'. parse_options atol stat_mode opendir lines_of recipe_path rest s')
        (set_option-IsReadySettings c optarg s h) (λ s' k. parse_options-Ensures rest s' k)

  Ensures-ok :
      (P : Settings → Type 0) (r : Parsed Settings) (s : Settings) → Ensures P r → r ≡ ok s → P s
  Ensures-ok P r s h e = let k : Ensures P (ok s) = rw (e) at h in k

  -- After every command line that is accepted, with recipes named by file or by directory and block
  -- sizes in any order, each scanner can be run, and neither it nor its recipes look further than the
  -- overlap; so does the scanner of -b, whose block size is a power of two. No recipe asks for an
  -- overlap above the bound, and none has an offset below 0: those the program accepts too.
  pub parse_options-IsReadySettings :
      (options : List (ℕ × List ℕ)) (s : Settings)
      → parse_options atol stat_mode opendir lines_of recipe_path options settings ≡ ok s
      → IsReadySettings s
  parse_options-IsReadySettings options s e =
      Ensures-ok IsReadySettings
        (parse_options atol stat_mode opendir lines_of recipe_path options settings) s
        (parse_options-Ensures options settings (record {
          globals_ready = record { fits = tt; bounded = omega arith };
          scanner_fits = tt;
        }))
        e

  -- From the command line to the reports: after a command line that is accepted, the scan of a device,
  -- from any offset that it is asked for, reports only what is in the device: at each place reported, a
  -- scanner finds what it looks for, and all operations of the recipe match. No recipe asks for an
  -- overlap above the bound, and the reports made before are true. Command lines with a recipe that has
  -- an offset below 0, which the program accepts too, are not covered; the scan is followed up to a
  -- `memcpy` of regions that overlap, after which C defines nothing.
  pub scan_device-Genuine :
      {W : Type 0} (extract : Recipe → ℕ → W → Option ℕ × W) (atoll : List ℕ → ℤ)
      (dev : List ℕ → Device W) (opens : (path : List ℕ) → Opens W (dev path))
      (options : List (ℕ × List ℕ)) (o : Settings) (path : List ℕ) (offset : Option (List ℕ))
      (b : Buffers W) (r : Exit × Disk W)
      → parse_options atol stat_mode opendir lines_of recipe_path options settings ≡ ok o
      → All (Genuine extract (dev path) o.globals.scanners o.globals.overlap) b.scan.found
      → scan_device extract atoll o.globals dev opens path offset b ≡ scanned r
      → All (Genuine extract (dev path) o.globals.scanners o.globals.overlap) r.1.scan.found
  scan_device-Genuine extract atoll dev opens options o path offset b r e old done =
      let fit = (parse_options-IsReadySettings options o e).globals_ready.fits in
      scan_device-scan_disk extract atoll o.globals dev opens
        (λ q. All (Genuine extract (dev path) o.globals.scanners o.globals.overlap) q.1.scan.found)
        path offset b r
        (λ start w at.
          scan_disk-Genuine extract (dev path) o.globals.scanners o.globals.overlap
            (All-mono (ScannerFits o.globals.overlap) (λ sc. IsReady sc.func) o.globals.scanners
              (λ sc f. f.ready) fit)
            (λ sc k.
              ScannerFits-Fits o.globals.overlap sc
                (All-Any (ScannerFits o.globals.overlap) o.globals.scanners sc fit k))
            b.mem start b.progress (record b.scan { world = w }) at old)
        done
