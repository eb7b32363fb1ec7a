-- ===== src/Extract/Output.antt =====
-- What `extract` of src/extract.c returns.
use magicrescue.Base.{
  ℕ, zero, suc, ◌≡◌, ◌≢◌, ◌⊎◌, refl, false, Option, none, some, List, Bool-cases, inl, inr,
}
use magicrescue.Base.Int.{ℤ, pos, negsuc}
use magicrescue.Recipe.{Recipe}
use magicrescue.Extract.{
  System, Naming, Composed, composed, too_long, no_name, compose_name, run_shell, Outcome, returned,
  failed, no_fuel, keep_output, after_command, extract, size_below,
}

module _ {W : Type 0} (sys : System W) (g : Naming) where
  -- The outcomes that are possible once the name is known.
  abbrev pub IsOutput : Recipe → Outcome → Type 0
  IsOutput r (returned n) = (n ≡ 0) ⊎ (size_below n r.min_output_file ≡ false)
  IsOutput r failed = Unit
  IsOutput r no_fuel = ⊥

  keep_output-IsOutput :
      (fuel : ℕ) (r : Recipe) (offset : ℕ) (outfile : List ℕ) (st : Option ℕ) (w : W)
      → IsOutput r (keep_output sys g fuel r offset outfile st w).0
  unfolding keep_output
  keep_output-IsOutput fuel r offset outfile none w = inl refl
  keep_output-IsOutput fuel r offset outfile (some n) w =
      elim (Bool-cases (size_below n r.min_output_file)) [
        | inl small ↦ rw (small, keep_output, IsOutput) (inl refl)
        | inr large ↦ rw (large, keep_output, IsOutput) (inr large)
      ]

  after_command-IsOutput :
      (fuel : ℕ) (r : Recipe) (offset : ℕ) (outfile : List ℕ) (p : ℤ × W)
      → IsOutput r (after_command sys g fuel r offset outfile p).0
  unfolding after_command
  after_command-IsOutput fuel r offset outfile (negsuc zero, w) = tt
  after_command-IsOutput fuel r offset outfile (negsuc (suc n), w) =
      keep_output-IsOutput fuel r offset outfile (sys.stat outfile w) w
  after_command-IsOutput fuel r offset outfile (pos n, w) =
      keep_output-IsOutput fuel r offset outfile (sys.stat outfile w) w

  -- If a name for the output is found, or the names get too long, `extract` fails or returns a size
  -- that is 0 or not below the recipe's `min_output_file`: a smaller output is not counted.
  pub extract-IsOutput :
      (fuel : ℕ) (r : Recipe) (offset : ℕ) (w : W)
      → compose_name sys g fuel offset r.extension 0 w ≢ no_name
      → IsOutput r (extract sys g fuel r offset w).0
  unfolding extract
  extract-IsOutput fuel r offset w h = go (compose_name sys g fuel offset r.extension 0 w) refl
    where
      go :
          (c : Composed)
          → compose_name sys g fuel offset r.extension 0 w ≡ c
          → IsOutput r (extract sys g fuel r offset w).0
      go no_name e = absurd (h e)
      go too_long e = rw (e, extract, IsOutput) tt
      go (composed outfile) e =
          rw (e, extract)
            (after_command-IsOutput fuel r offset outfile
              (run_shell sys g offset r.command outfile w))
