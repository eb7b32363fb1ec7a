-- ===== src/Parse/Valid.antt =====
-- `parse_recipe` of src/magicrescue.c as a whole, and the list of scanners that it leaves.
use mathlib.Core.Path.{subst}
use magicrescue.Base.{
  ℕ, zero, suc, ◌+◌, ◌≤◌, ◌<◌, ◌^◌, ◌≡◌, Option, none, some, List, [], ◌∷◌, arith, All, All-append,
  All-mono, Option-cases, inl, inr,
}
use magicrescue.Recipe.{Recipe}
use magicrescue.Scanner.{Scanner}
use magicrescue.Parse.{
  parse_start, ok, Parse, Globals, parse_lines, add_parsed, parse_recipe, round_overlap,
}
use magicrescue.Parse.Registry.{scanner_add_or_reuse, add_recipe, find_scanner}
use magicrescue.Parse.Rounding.{round_overlap_bounds}
use magicrescue.Parse.Fits.{
  RecipeFits, ScannerFits, MaybeFits, ScannerFits-mono, RecipeFits-mono, ParseFits, Ensures,
  Ensures-bind, Ensures-with,
}
use magicrescue.Parse.Directives.{parse_lines-ParseFits}

scanner_add_or_reuse-ScannerFits :
    (overlap : ℕ) (els : List Scanner) (sc : Scanner)
    → All (ScannerFits overlap) els
    → ScannerFits overlap sc
    → All (ScannerFits overlap) (scanner_add_or_reuse els sc).0
unfolding scanner_add_or_reuse
scanner_add_or_reuse-ScannerFits overlap els sc h f = elim (Option-cases (find_scanner els sc)) [
  | inl e ↦ rw (e, scanner_add_or_reuse) (All-append (ScannerFits overlap) els (sc ∷ []) h (f, tt))
  | inr (i, e) ↦ rw (e, scanner_add_or_reuse) h
]

add_recipe-ScannerFits :
    (overlap : ℕ) (els : List Scanner) (i : ℕ) (r : Recipe)
    → All (ScannerFits overlap) els
    → RecipeFits overlap r
    → All (ScannerFits overlap) (add_recipe els i r)
unfolding add_recipe
add_recipe-ScannerFits overlap [] i r h f = tt
add_recipe-ScannerFits overlap (el ∷ els) zero r (h, hs) f = (
  record {
    ready = h.ready;
    reach = h.reach;
    recipes_fit = All-append (RecipeFits overlap) el.recipes (r ∷ []) h.recipes_fit (f, tt);
  },
  hs,
)
add_recipe-ScannerFits overlap (el ∷ els) (suc i) r (h, hs) f =
    (h, add_recipe-ScannerFits overlap els i r hs f)

-- What holds of the globals between two recipes.
abbrev pub GlobalsFit : Globals → Type 0
GlobalsFit g = All (ScannerFits g.overlap) g.scanners

add_parsed-GlobalsFit :
    (g : Globals) (st : Parse) (sc : Option Scanner) (command : Option (List ℕ))
    → GlobalsFit g
    → ParseFits g.overlap st
    → MaybeFits st.overlap sc
    → st.overlap + 7 < 2 ^ 64
    → Ensures (λ g'. (g.overlap ≤ g'.overlap) × GlobalsFit g') (add_parsed g st sc command)
unfolding add_parsed
add_parsed-GlobalsFit g st none command h f m small = tt
add_parsed-GlobalsFit g st (some sc) none h f m small = tt
add_parsed-GlobalsFit g st (some sc) (some command) h f m small =
    let (least, less, even) = round_overlap_bounds st.overlap small in
    let low : g.overlap ≤ round_overlap st.overlap = omega (arith, f.grows) in
    (
      low,
      add_recipe-ScannerFits (round_overlap st.overlap) (scanner_add_or_reuse g.scanners sc).0
          (scanner_add_or_reuse g.scanners sc).1 st.recipe
          (scanner_add_or_reuse-ScannerFits (round_overlap st.overlap) g.scanners sc
            (All-mono (ScannerFits g.overlap) (ScannerFits (round_overlap st.overlap)) g.scanners
              (λ el. ScannerFits-mono g.overlap (round_overlap st.overlap) el low) h)
            (ScannerFits-mono st.overlap (round_overlap st.overlap) sc least m))
          (RecipeFits-mono st.overlap (round_overlap st.overlap) st.recipe least f.recipe_fits),
    )

-- A recipe that is accepted leaves every scanner, the new and the old, ready to run and within the
-- overlap, itself and its recipes, and the overlap does not get smaller. The scanner of the command
-- line, where there is one, has to fit, and the rounding up of the overlap must not wrap. No line has
-- an offset below 0: the program accepts such recipes too, and they are not covered.
pub parse_recipe-GlobalsFit :
    (global_scanner : Option Scanner) (name : List ℕ) (lines : List (List ℕ)) (g g' : Globals)
    → GlobalsFit g
    → MaybeFits g.overlap global_scanner
    → ((st : Parse)
        → parse_lines (parse_start global_scanner name g.overlap) lines ≡ ok st
        → st.overlap + 7 < 2 ^ 64)
    → parse_recipe global_scanner name lines g ≡ ok g'
    → (g.overlap ≤ g'.overlap) × GlobalsFit g'
unfolding parse_recipe
parse_recipe-GlobalsFit global_scanner name lines g g' h m small e =
    let start = parse_start global_scanner name g.overlap in
    let fits : ParseFits g.overlap start = record {
      grows = omega arith;
      scanner_fits = m;
      recipe_fits = tt;
    } in
    subst (Ensures (λ g'. (g.overlap ≤ g'.overlap) × GlobalsFit g')) e (
      Ensures-bind (λ st. ParseFits g.overlap st × parse_lines start lines ≡ ok st)
        (λ g'. (g.overlap ≤ g'.overlap) × GlobalsFit g') (parse_lines start lines)
        (λ st. add_parsed g st st.scanner st.recipe.command)
        (Ensures-with (ParseFits g.overlap) (parse_lines start lines)
          (parse_lines-ParseFits g.overlap start lines fits))
        (λ st k.
          add_parsed-GlobalsFit g st st.scanner st.recipe.command h k.0 k.0.scanner_fits
            (small st k.1)))
