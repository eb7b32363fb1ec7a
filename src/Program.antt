-- ===== src/Program.antt =====
-- The programs as a whole: what recipes give to a scan, from `main` of src/magicrescue.c.
pub mod Options
pub mod Ready
pub mod Devices
pub mod Command
use mathlib.Core.Path.{subst}
use magicrescue.Base.{ℕ, ◌+◌, ◌<◌, ◌^◌, ◌≡◌, Option, List, [], ◌∷◌, All, All-mono, Any, inl, inr}
use magicrescue.Memory.{Memory}
use magicrescue.Recipe.{Recipe}
use magicrescue.Scanner.{Scanner}
use magicrescue.Scanner.Magic.{IsReady}
use magicrescue.Device.{Device}
use magicrescue.ScanBuf.{Scan}
use magicrescue.ScanDisk.{scan_disk}
use magicrescue.ScanDisk.Reports.{Fits}
use magicrescue.ScanDisk.Genuine.{Genuine, scan_disk-Genuine}
use magicrescue.Parse.{Globals, Parse, ok, parse_start, parse_lines, parse_recipe}
use magicrescue.Parse.Fits.{ScannerFits, RecipeFits, MaybeFits}
use magicrescue.Parse.Valid.{GlobalsFit, parse_recipe-GlobalsFit}

pub All-Any :
    {A : Type 0} (P : A → Type 0) (xs : List A) (x : A) → All P xs → Any (λ t. t ≡ x) xs → P x
All-Any P [] x h k = absurd k
All-Any P (y ∷ ys) x h (inl e) = subst P e h.0
All-Any P (y ∷ ys) x h (inr k) = All-Any P ys x h.1 k

pub ScannerFits-Fits : (overlap : ℕ) (sc : Scanner) → ScannerFits overlap sc → Fits overlap sc
ScannerFits-Fits overlap sc f = record {
  scan_fits = f.reach;
  ops_fit = λ r m. All-Any (RecipeFits overlap) sc.recipes r f.recipes_fit m;
}

-- A scan with the scanners and the overlap that an accepted recipe leaves reports only what is in the
-- file: at each place reported, a scanner finds what it looks for, and all operations of the recipe
-- match. The globals before the recipe and the scanner of the command line have to fit, the rounding
-- up of the overlap must not wrap, the position is at `start` when the loop begins, and the reports
-- made before are true. A recipe with an offset below 0, which the program accepts too, is not covered;
-- the scan is followed up to a `memcpy` of regions that overlap, after which C defines nothing.
pub parse_recipe-Genuine :
    {W : Type 0} (extract : Recipe → ℕ → W → Option ℕ × W) (dev : Device W)
    (global_scanner : Option Scanner) (name : List ℕ) (lines : List (List ℕ)) (g g' : Globals)
    (mem : Memory) (start progress : ℕ) (s : Scan W)
    → GlobalsFit g
    → MaybeFits g.overlap global_scanner
    → ((st : Parse)
        → parse_lines (parse_start global_scanner name g.overlap) lines ≡ ok st
        → st.overlap + 7 < 2 ^ 64)
    → parse_recipe global_scanner name lines g ≡ ok g'
    → dev.position s.world ≡ start
    → All (Genuine extract dev g'.scanners g'.overlap) s.found
    → All
        (Genuine extract dev g'.scanners g'.overlap)
        (scan_disk extract dev g'.scanners g'.overlap mem start progress s).1.scan.found
parse_recipe-Genuine extract dev global_scanner name lines g g' mem start progress s h m small e at
      old =
    let fit = (parse_recipe-GlobalsFit global_scanner name lines g g' h m small e).1 in
    scan_disk-Genuine extract dev g'.scanners g'.overlap
      (All-mono (ScannerFits g'.overlap) (λ sc. IsReady sc.func) g'.scanners (λ sc f. f.ready) fit)
      (λ sc k.
        ScannerFits-Fits g'.overlap sc (All-Any (ScannerFits g'.overlap) g'.scanners sc fit k))
      mem start progress s at old
