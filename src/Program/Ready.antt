-- ===== src/Program/Ready.antt =====
-- The scanners and the overlap with which `main` of src/magicrescue.c begins to scan.
use mathlib.Core.Path.{subst}
use magicrescue.Base.{
  ℕ, ◌-◌, ◌^◌, take, ◌≤◌, ◌≡◌, refl, bit_and, Option, none, some, List, [], ◌∷◌, ◌++◌, ◌==◌, ltb,
  arith, Bool-cases, Option-cases, inl, inr,
}
use magicrescue.Base.Bits.{bit_and_pred-power}
use magicrescue.Base.Int.{ℤ, pos, negsuc}
use magicrescue.Scanner.{Scanner}
use magicrescue.Parse.{
  Parsed, ok, failed, undefined, negative_offset, ◌>>=◌, Parse, Globals, parse_start, parse_lines,
  parse_recipe, add_parsed,
}
use magicrescue.Parse.Rounding.{round_overlap_bounds}
use magicrescue.Parse.Fits.{MaybeFits, MaybeFits-mono, Ensures, Ensures-bind}
use magicrescue.Parse.Valid.{GlobalsFit, parse_recipe-GlobalsFit}
use magicrescue.Extract.{path_max}
use magicrescue.Program.Options.{
  Settings, base_name, set_block, set_output_dir, open_recipe, parse_file, is_hidden, unless_hidden,
  parse_dir, is_dir_mode, parse_named, with_globals,
}

-- A bound of the overlap that recipes keep to.
abbrev pub max_overlap : ℕ
max_overlap = 2 ^ 62

-- The scanners can be run, within the overlap, and it is in its range.
pub record IsReadyGlobals (g : Globals) : Type 0 where
  pub fits : GlobalsFit g
  pub bounded : g.overlap ≤ max_overlap

pub record IsReadySettings (s : Settings) : Type 0 where
  pub globals_ready : IsReadyGlobals s.globals
  pub scanner_fits : MaybeFits s.globals.overlap s.global_scanner

add_parsed-bounded :
    (g g' : Globals) (st : Parse) (sc : Option Scanner) (command : Option (List ℕ))
    → st.overlap ≤ max_overlap
    → add_parsed g st sc command ≡ ok g'
    → g'.overlap ≤ max_overlap
unfolding add_parsed
add_parsed-bounded g g' st none command h e = absurd cc
add_parsed-bounded g g' st (some sc) none h e = absurd cc
add_parsed-bounded g g' st (some sc) (some command) h e =
    let (least, less, even) = round_overlap_bounds st.overlap (omega arith) in
    subst (λ (r : Parsed Globals). Ensures (λ u. u.overlap ≤ max_overlap) r) e (omega arith)

parse_recipe-bounded :
    (sc : Option Scanner) (name : List ℕ) (lines : List (List ℕ)) (g g' : Globals)
    → ((st : Parse)
        → parse_lines (parse_start sc name g.overlap) lines ≡ ok st
        → st.overlap ≤ max_overlap)
    → parse_recipe sc name lines g ≡ ok g'
    → g'.overlap ≤ max_overlap
unfolding parse_recipe
parse_recipe-bounded sc name lines g g' h e =
    go (parse_lines (parse_start sc name g.overlap) lines) h e
  where
    go :
        (r : Parsed Parse)
        → ((st : Parse) → r ≡ ok st → st.overlap ≤ max_overlap)
        → (r >>= (λ st. add_parsed g st st.scanner st.recipe.command)) ≡ ok g'
        → g'.overlap ≤ max_overlap
    go (ok st) k z = add_parsed-bounded g g' st st.scanner st.recipe.command (k st refl) z
    go failed k z = absurd cc
    go undefined k z = absurd cc
    go negative_offset k z = absurd cc

module _ (atol : List ℕ → ℤ) (stat_mode : List ℕ → Option ℕ)
    (opendir : List ℕ → Option (List (List ℕ))) (lines_of : List ℕ → Option (List (List ℕ)))
    (recipe_path : Option (List ℕ))
    -- No recipe asks for more than that.
    (moderate : (file name : List ℕ) (lines : List (List ℕ)) (sc : Option Scanner) (g : Globals)
        (st : Parse)
      → open_recipe atol stat_mode opendir lines_of recipe_path file ≡ some lines
      → g.overlap ≤ max_overlap
      → parse_lines (parse_start sc name g.overlap) lines ≡ ok st
      → st.overlap ≤ max_overlap) where
  -- What a recipe leaves, with the overlap it began with as `low`.
  abbrev pub Leaves : ℕ → Globals → Type 0
  Leaves low g = (low ≤ g.overlap) × IsReadyGlobals g

  Leaves-trans :
      (g g' : Globals) (r : Parsed Globals)
      → g.overlap ≤ g'.overlap
      → Ensures (Leaves g'.overlap) r
      → Ensures (Leaves g.overlap) r
  Leaves-trans g g' (ok u) h (low, ready) = (omega arith, ready)
  Leaves-trans g g' failed h k = tt
  Leaves-trans g g' undefined h k = tt
  Leaves-trans g g' negative_offset h k = tt

  parse_file-Leaves :
      (sc : Option Scanner) (file : List ℕ) (g : Globals)
      → IsReadyGlobals g
      → MaybeFits g.overlap sc
      → Ensures
          (Leaves g.overlap)
          (parse_file atol stat_mode opendir lines_of recipe_path sc file g)
  unfolding parse_file
  parse_file-Leaves sc file g h m =
      elim (Option-cases (open_recipe atol stat_mode opendir lines_of recipe_path file)) [
        | inl e ↦ rw (e, parse_file) tt
        | inr (lines, e) ↦
            rw (e, parse_file) (go lines e (parse_recipe sc (base_name file) lines g) refl)
      ]
    where
      go :
          (lines : List (List ℕ))
          → open_recipe atol stat_mode opendir lines_of recipe_path file ≡ some lines
          → (r : Parsed Globals) → parse_recipe sc (base_name file) lines g ≡ r
          → Ensures (Leaves g.overlap) r
      go lines e failed z = tt
      go lines e undefined z = tt
      go lines e negative_offset z = tt
      go lines e (ok g') z =
          let small : (st : Parse)
              → parse_lines (parse_start sc (base_name file) g.overlap) lines ≡ ok st
              → st.overlap ≤ max_overlap =
            λ st k. moderate file (base_name file) lines sc g st e h.bounded k in
          let (low, fit) =
            parse_recipe-GlobalsFit sc (base_name file) lines g g' h.fits m
              (λ st k. let le = small st k in omega arith) z in
          (
            low,
            record {
              fits = fit;
              bounded = parse_recipe-bounded sc (base_name file) lines g g' small z;
            },
          )

  parse_dir-Leaves :
      (sc : Option Scanner) (dir : List ℕ) (names : List (List ℕ)) (g : Globals)
      → IsReadyGlobals g
      → MaybeFits g.overlap sc
      → Ensures
          (Leaves g.overlap)
          (parse_dir atol stat_mode opendir lines_of recipe_path sc dir names g)
  unfolding parse_dir
  parse_dir-Leaves sc dir [] g h m = (omega arith, h)
  parse_dir-Leaves sc dir (name ∷ names) g h m =
      Ensures-bind (Leaves g.overlap) (Leaves g.overlap)
        (unless_hidden atol stat_mode opendir lines_of recipe_path name g (
          parse_file atol stat_mode opendir lines_of recipe_path sc
            (take (path_max - 1) (dir ++ b'/' ∷ name)) g))
        (λ g'. parse_dir atol stat_mode opendir lines_of recipe_path sc dir names g')
        (elim (Bool-cases (is_hidden atol stat_mode opendir lines_of recipe_path name)) [
          | inl e ↦ rw (e, unless_hidden) (omega arith, h)
          | inr e ↦
              rw (e, unless_hidden)
                (parse_file-Leaves sc (take (path_max - 1) (dir ++ b'/' ∷ name)) g h m)
        ])
        (λ g' k.
          Leaves-trans g g' (parse_dir atol stat_mode opendir lines_of recipe_path sc dir names g')
            k.0
            (parse_dir-Leaves sc dir names g' k.1 (MaybeFits-mono g.overlap g'.overlap sc k.0 m)))

  pub parse_named-Leaves :
      (sc : Option Scanner) (optarg : List ℕ) (g : Globals)
      → IsReadyGlobals g
      → MaybeFits g.overlap sc
      → Ensures
          (Leaves g.overlap)
          (parse_named atol stat_mode opendir lines_of recipe_path sc optarg g)
  unfolding parse_named
  parse_named-Leaves sc optarg g h m =
      elim (Bool-cases
        (is_dir_mode atol stat_mode opendir lines_of recipe_path (stat_mode optarg))) [
          | inr e ↦ rw (e, parse_named) (parse_file-Leaves sc optarg g h m)
          | inl e ↦ elim (Option-cases (opendir optarg)) [
            | inl o ↦ rw (e, o, parse_named) (parse_file-Leaves sc optarg g h m)
            | inr (names, o) ↦ rw (e, o, parse_named) (parse_dir-Leaves sc optarg names g h m)
          ]
        ]

  pub with_globals-IsReadySettings :
      (s : Settings) (r : Parsed Globals)
      → MaybeFits s.globals.overlap s.global_scanner
      → Ensures (Leaves s.globals.overlap) r
      → Ensures IsReadySettings (with_globals atol stat_mode opendir lines_of recipe_path s r)
  with_globals-IsReadySettings s (ok g) m (low, ready) = record {
    globals_ready = ready;
    scanner_fits = MaybeFits-mono s.globals.overlap g.overlap s.global_scanner low m;
  }
  with_globals-IsReadySettings s failed m h = tt
  with_globals-IsReadySettings s undefined m h = tt
  with_globals-IsReadySettings s negative_offset m h = tt

  pub set_block-IsReadySettings :
      (s : Settings) (b : ℤ)
      → IsReadySettings s
      → Ensures IsReadySettings (set_block atol stat_mode opendir lines_of recipe_path s b)
  unfolding set_block
  set_block-IsReadySettings s (negsuc n) h = record {
    globals_ready = h.globals_ready;
    scanner_fits = tt;
  }
  set_block-IsReadySettings s (pos n) h = elim (Bool-cases (ltb 1 n)) [
    | inr small ↦
        rw (small, set_block) (record { globals_ready = h.globals_ready; scanner_fits = tt })
    | inl large ↦ elim (Bool-cases (bit_and n (n - 1) == 0)) [
      | inr e ↦ rw (large, e, set_block) tt
      | inl e ↦
          rw (large, e, set_block)
            (record {
              globals_ready = h.globals_ready;
              scanner_fits = record {
                ready = bit_and_pred-power n (ground arith) (ground arith);
                reach = omega arith;
                recipes_fit = tt;
              };
            })
    ]
  ]

  pub set_output_dir-IsReadySettings :
      (s : Settings) (dir : List ℕ)
      → IsReadySettings s
      → Ensures IsReadySettings (set_output_dir atol stat_mode opendir lines_of recipe_path s dir)
  unfolding set_output_dir
  set_output_dir-IsReadySettings s dir h = elim (Option-cases (stat_mode dir)) [
    | inl e ↦ rw (e, set_output_dir) tt
    | inr (mode, e) ↦ elim (Bool-cases (bit_and mode 0x4000 == 0)) [
      | inl z ↦ rw (e, z, set_output_dir) tt
      | inr z ↦
          rw (e, z, set_output_dir)
            (record { globals_ready = h.globals_ready; scanner_fits = h.scanner_fits })
    ]
  ]
