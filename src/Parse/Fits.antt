-- ===== src/Parse/Fits.antt =====
-- How far scanners and operations read, and the overlap of `parse_recipe` in src/magicrescue.c.
use magicrescue.Base.{ℕ, ◌+◌, ◌≤◌, ◌≡◌, refl, Option, none, some, arith, All, All-mono}
use magicrescue.Recipe.{Recipe, Operation}
use magicrescue.Recipe.Word.{op_len}
use magicrescue.Scanner.{Scanner}
use magicrescue.Scanner.Magic.{IsReady}
use magicrescue.ScanDisk.Reports.{scan_len}
use magicrescue.Parse.{◌>>=◌, Parsed, ok, failed, undefined, negative_offset, Parse}

abbrev pub OpFits : ℕ → Operation → Type 0
OpFits overlap op = op.offset + op_len op.func ≤ overlap

abbrev pub RecipeFits : ℕ → Recipe → Type 0
RecipeFits overlap r = All (OpFits overlap) r.ops

-- The scanner can be run, and neither it nor its recipes look further than `overlap` bytes.
pub record ScannerFits (overlap : ℕ) (sc : Scanner) : Type 0 where
  pub ready : IsReady sc.func
  pub reach : sc.offset + scan_len sc.func ≤ overlap
  pub recipes_fit : All (RecipeFits overlap) sc.recipes

pub ScannerFits-mono : (a b : ℕ) (sc : Scanner) → a ≤ b → ScannerFits a sc → ScannerFits b sc
ScannerFits-mono a b sc h f = record {
  ready = f.ready;
  reach = omega (arith, f.reach);
  recipes_fit =
      All-mono (RecipeFits a) (RecipeFits b) sc.recipes
        (λ r. All-mono (OpFits a) (OpFits b) r.ops (λ op k. omega arith)) f.recipes_fit;
}

abbrev pub MaybeFits : ℕ → Option Scanner → Type 0
MaybeFits overlap none = Unit
MaybeFits overlap (some sc) = ScannerFits overlap sc

pub MaybeFits-mono : (a b : ℕ) (o : Option Scanner) → a ≤ b → MaybeFits a o → MaybeFits b o
MaybeFits-mono a b none h f = tt
MaybeFits-mono a b (some sc) h f = ScannerFits-mono a b sc h f

-- What holds of the variables of the loop, with `low` the overlap at its start.
pub record ParseFits (low : ℕ) (st : Parse) : Type 0 where
  pub grows : low ≤ st.overlap
  pub scanner_fits : MaybeFits st.overlap st.scanner
  pub recipe_fits : RecipeFits st.overlap st.recipe

abbrev pub Ensures {ℓ} : {A : Type ℓ} → (A → Type 0) → Parsed A → Type 0
Ensures P (ok a) = P a
Ensures P failed = Unit
Ensures P undefined = Unit
Ensures P negative_offset = Unit

pub Ensures-bind :
    {A B : Type 0} (P : A → Type 0) (Q : B → Type 0) (m : Parsed A) (f : A → Parsed B)
    → Ensures P m
    → ((a : A) → P a → Ensures Q (f a))
    → Ensures Q (m >>= f)
Ensures-bind P Q (ok a) f h k = k a h
Ensures-bind P Q failed f h k = tt
Ensures-bind P Q undefined f h k = tt
Ensures-bind P Q negative_offset f h k = tt

pub Ensures-with :
    {A : Type 0} (P : A → Type 0) (m : Parsed A) → Ensures P m → Ensures (λ a. P a × m ≡ ok a) m
Ensures-with P (ok a) h = (h, refl)
Ensures-with P failed h = tt
Ensures-with P undefined h = tt
Ensures-with P negative_offset h = tt

pub RecipeFits-mono : (a b : ℕ) (r : Recipe) → a ≤ b → RecipeFits a r → RecipeFits b r
RecipeFits-mono a b r h = All-mono (OpFits a) (OpFits b) r.ops (λ op k. omega arith)
