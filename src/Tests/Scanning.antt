-- ===== src/Tests/Scanning.antt =====
-- The theorems on the scan, at a file of ten bytes.
use mathlib.Core.Path.{subst}
use magicrescue.Base.{
  ◌⊎◌, ℕ, ◌+◌, ◌≡◌, ◌≢◌, ◌^◌, ◌==◌, bit_and, inl, inr, refl, false, some, List, [], ◌∷◌, Any, All,
  arith, ltb, if◌then◌else◌,
}
use magicrescue.Memory.{holds, memchr, Agree}
use magicrescue.Memory.First.{First}
use magicrescue.Recipe.{op_string, run_op_int32, run_op, ops_match}
use magicrescue.Recipe.Word.{big_endian, run_op_int32-big_endian, run_op-Agree}
use magicrescue.Scanner.{
  Scanner, scan_string, scanner_string, scanner_block, scanner_string_init, run_scan, string_loop,
}
use magicrescue.Scanner.Search.{scanner_string-First, scanner_block-First, aligned}
use magicrescue.Scanner.Magic.{IsMagic, wants, run_scan-First, scanner_string_init-IsMagic}
use magicrescue.ScanBuf.{
  Range, Window, scan_buf, skip_loop, add_range, skip_one, scan_all, visit, in_skip_range,
  try_recipes, after_extract, extract_at,
}
use magicrescue.ScanBuf.Ranges.{Covered, skip_loop-Covered, add_range-Covered}
use magicrescue.ScanBuf.Complete.{Handled}
use magicrescue.ScanBuf.Sound.{Matches}
use magicrescue.ScanBuf.Frame.{scan_buf-world}
use magicrescue.ScanBuf.Whole.{Justified, scan_buf-Justified, scan_buf-Handled}
use magicrescue.ScanDisk.Defined.{IsShortRead}
use magicrescue.ScanDisk.{Disk, undefined_copy, out_of_fuel, scan_disk, disk_start, advance, store}
use magicrescue.ScanDisk.Buffer.{IsAligned, advance-IsAligned}
use magicrescue.ScanDisk.Reports.{Fits}
use magicrescue.ScanDisk.Genuine.{Genuine, scan_disk-Genuine}
use magicrescue.ScanDisk.Ends.{scan_disk-ends}
use magicrescue.Parse.Fits.{OpFits}
use magicrescue.Memory.Slice.{bytes_from}
use magicrescue.Tests.Concrete.{file, the_device, the_recipe, the_scanner, two_bytes, start}

the_scanner-Fits : (sc : Scanner) → Any (λ t. t ≡ sc) (the_scanner ∷ []) → Fits 4 sc
the_scanner-Fits sc (inl e) = subst (Fits 4) e (record {
  scan_fits = omega arith;
  ops_fit = λ r h. elim h [
    | inl k ↦ subst (λ t. All (OpFits 4) t.ops) k (omega arith, tt)
    | inr z ↦ absurd z
  ];
})
the_scanner-Fits sc (inr z) = absurd z

scan_disk-Genuine_example :
    All
      (Genuine two_bytes the_device (the_scanner ∷ []) 4)
      (scan_disk two_bytes the_device (the_scanner ∷ []) 4 file 0 0 start).1.scan.found
scan_disk-Genuine_example =
    scan_disk-Genuine two_bytes the_device (the_scanner ∷ []) 4 (refl, tt) the_scanner-Fits file 0 0
      start refl tt

scan_disk-ends_example :
    ((scan_disk two_bytes the_device (the_scanner ∷ []) 4 file 0 0 start).0 ≢ out_of_fuel)
    × (((scan_disk two_bytes the_device (the_scanner ∷ []) 4 file 0 0 start).0 ≢ undefined_copy)
        ⊎ IsShortRead two_bytes the_device (the_scanner ∷ []) 4 0)
scan_disk-ends_example =
    scan_disk-ends two_bytes the_device (the_scanner ∷ []) 4 file 0 0 start refl

-- What the run reports.
scan_disk_found :
    (scan_disk two_bytes the_device (the_scanner ∷ []) 2 file 0 0 start).1.scan.found
    ≡ (the_recipe, 4) ∷ []
unfolding scan_disk bytes_from scan_buf skip_loop skip_one scan_all run_scan string_loop memchr
    holds visit in_skip_range try_recipes ops_match run_op after_extract extract_at
scan_disk_found = refl

abbrev the_window : Window
the_window = record { scanbuf = 0; len = 6; filepos = 0 }

the_match : Matches file the_scanner the_window 4 the_recipe
unfolding holds ops_match run_op
the_match = record { inside = omega arith; wanted = refl; member = inl refl; ops_hold = refl }

scan_buf-Handled_example :
    Handled (scan_buf two_bytes file (the_scanner ∷ []) the_window start).0 the_recipe 4
unfolding scan_buf skip_loop skip_one scan_all run_scan string_loop memchr holds visit in_skip_range
    try_recipes ops_match run_op after_extract extract_at
scan_buf-Handled_example =
    scan_buf-Handled two_bytes file (the_scanner ∷ []) the_window start the_scanner the_recipe 4
      (tt, tt) (inl refl) refl the_match (omega arith) refl

scan_buf-Justified_example :
    All
      (Justified two_bytes file (the_scanner ∷ []) the_window start)
      (scan_buf two_bytes file (the_scanner ∷ []) the_window start).0.found
scan_buf-Justified_example =
    scan_buf-Justified two_bytes file (the_scanner ∷ []) the_window start (refl, tt) tt

scan_buf-world_example :
    (scan_buf two_bytes file
      (the_scanner ∷ [])
      (record { scanbuf = 0; len = 3; filepos = 0 })
      start).0.world
    ≡ 0
unfolding scan_buf skip_loop skip_one scan_all run_scan string_loop memchr holds visit in_skip_range
    try_recipes ops_match run_op after_extract extract_at
scan_buf-world_example =
    scan_buf-world two_bytes file (the_scanner ∷ []) (record { scanbuf = 0; len = 3; filepos = 0 })
      start refl

-- The program has moved the position to 6, and the read stopped at 10.
abbrev first_disk : Disk ℕ
first_disk = disk_start two_bytes the_device (the_scanner ∷ []) 4 file 0 0 start

first_disk-IsAligned : IsAligned the_device 4 first_disk
first_disk-IsAligned = record {
  at = refl;
  back = omega arith;
  kept = λ i h. absurd (omega arith);
  room = refl;
  first = λ e. refl;
  later = λ e. absurd (cc);
}

advance-IsAligned_example :
    (d' : Disk ℕ) × (advance two_bytes the_device
        (the_scanner ∷ [])
        4
        (record first_disk { mem = store file 0 (bytes_from file 0 10); progress = 0 })
        10
        (record start { world = 10 })
      ≡ some d')
    × IsAligned the_device 4 d'
unfolding bytes_from
advance-IsAligned_example =
    advance-IsAligned two_bytes the_device (the_scanner ∷ []) 4 first_disk (bytes_from file 0 10) 0
      (record start { world = 10 }) first_disk-IsAligned refl (omega arith) (λ e. omega arith) refl

abbrev some_ranges : List Range
some_ranges = record { begin = some 2; end = 8 } ∷ record { begin = some 0; end = 5 } ∷ []

skip_loop-Covered_example : Covered some_ranges 6
unfolding skip_loop skip_one
skip_loop-Covered_example =
    skip_loop-Covered some_ranges (record { scanbuf = 0; len = 10; filepos = 3 }) 6
      (omega arith, (omega arith, tt)) (omega arith) (omega arith)

add_range-Covered_example : Covered (add_range some_ranges (record { begin = some 20; end = 30 })) 6
unfolding add_range
add_range-Covered_example =
    add_range-Covered some_ranges (record { begin = some 20; end = 30 }) 6
      (inl (inl (omega arith, omega arith)))

scanner_string-First_example :
    First
      (λ i. holds file i (b'a' ∷ b'b' ∷ []))
      2
      10
      (scanner_string file 2 8 (b'a' ∷ b'b' ∷ []) b'b' 1)
scanner_string-First_example = scanner_string-First file (b'a' ∷ b'b' ∷ []) b'b' 1 refl 2 8

scanner_block-First_example : First (aligned (2 ^ 2) 0 7) 0 (0 + 6) (scanner_block 0 6 (2 ^ 2) 7)
scanner_block-First_example = scanner_block-First 2 0 6 7 (omega arith)

run_scan-First_example :
    First (wants file the_scanner.func 0 0) 0 (0 + 6) (run_scan file the_scanner.func 0 6 0)
run_scan-First_example = run_scan-First file the_scanner.func 0 6 0 refl (omega arith)

scanner_string_init-IsMagic_example :
    (c : ℕ) × (off : ℕ) × (scanner_string_init (b'a' ∷ b'b' ∷ [])
      ≡ scan_string (b'a' ∷ b'b' ∷ []) c off)
    × IsMagic (b'a' ∷ b'b' ∷ []) c off
scanner_string_init-IsMagic_example = scanner_string_init-IsMagic b'a' (b'b' ∷ [])

-- A file of bytes with the top bit set.
run_op_int32-big_endian_example :
    run_op_int32 (λ i. 255) 3 0xFFFF0000 0xFFFF0000
    ≡ (bit_and (big_endian 255 255 255 255) 0xFFFF0000 == 0xFFFF0000)
run_op_int32-big_endian_example =
    run_op_int32-big_endian (λ i. 255) 3 0xFFFF0000 0xFFFF0000 (λ i. omega arith) (omega arith)

abbrev elsewhere : ℕ → ℕ
elsewhere i = if ltb i 4 then 0 else file i

elsewhere-Agree : Agree file elsewhere 6 7
elsewhere-Agree i lo hi = let e : ltb i 4 ≡ false = ground arith in rw (e) refl

run_op-Agree_example :
    run_op file 4 (record { func = op_string (b'!' ∷ []); offset = 2 })
    ≡ run_op elsewhere 4 (record { func = op_string (b'!' ∷ []); offset = 2 })
run_op-Agree_example =
    run_op-Agree file elsewhere 4 (record { func = op_string (b'!' ∷ []); offset = 2 })
      elsewhere-Agree
