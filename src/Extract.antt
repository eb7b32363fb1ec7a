-- ===== src/Extract.antt =====
-- `extract` of src/extract.c: the name of the output, the external programs, and what becomes of it.
pub mod Names
pub mod Output
use magicrescue.Base.{
  ℕ, zero, suc, ◌+◌, ◌-◌, ◌*◌, ◌/◌, ◌%◌, Bool, true, false, Option, none, some, List, [], ◌∷◌, ◌++◌,
  ltb, leb, ◌==◌, if◌then◌else◌, length, take,
}
use magicrescue.Base.Int.{ℤ, pos, negsuc}
use magicrescue.Recipe.{Recipe}
use magicrescue.Parse.Scanf.{codes, after_prefix}

-- The calls of the system: `lstat` says whether a name exists, `shell` is the child with its standard
-- input at the position of the file and the wait for its status, `shell_output` one whose output is
-- read to its end, and `stat` gives a size.
pub record System (W : Type 0) : Type 0 where
  pub lstat : List ℕ → W → Bool
  pub lseek : ℕ → W → Option W
  pub pipe : W → Option W
  pub shell : Option (List ℕ) → List ℕ → W → ℤ × W
  pub shell_output : List ℕ → List ℕ → W → List ℕ × W
  pub stat : List ℕ → W → Option ℕ
  pub unlink : List ℕ → W → W
  pub rename : List ℕ → List ℕ → W → W

-- `name_mode`, and the globals that a name is made of.
pub data NameMode : Type 0 where
  mode_device mode_files : NameMode

pub record Naming : Type 0 where
  pub name_mode : NameMode
  pub output_dir : List ℕ
  pub device_basename : List ℕ

abbrev pub path_max : ℕ
path_max = 4096

abbrev digit : ℕ → ℕ
digit d = if ltb d 10 then b'0' + d else b'A' + (d - 10)

-- The digits of `n` in front of `acc`, on as much fuel as `n` has digits.
unfoldable pub print_from : ℕ → ℕ → ℕ → List ℕ → List ℕ
print_from base zero n acc = acc
print_from base (suc fuel) n acc = elim (n / base == 0) [
  | true ↦ digit (n % base) ∷ acc
  | false ↦ print_from base fuel (n / base) (digit (n % base) ∷ acc)
]

unfoldable pub print_number : ℕ → ℕ → List ℕ
unfolding print_from
print_number base n = print_from base (suc n) n []

unfoldable pub zeros : ℕ → List ℕ → List ℕ
zeros zero s = s
zeros (suc n) s = b'0' ∷ zeros n s

unfoldable pub pad : ℕ → List ℕ → List ℕ
unfolding zeros
pad width s = zeros (width - length s) s

-- "%s/%012llX-%ld.%s" or "%s/%s-%ld.%s".
unfoldable pub candidate : Naming → ℕ → List ℕ → ℕ → List ℕ
unfolding print_number pad
candidate g offset extension i =
    g.output_dir
    ++ b'/'
      ∷ (elim g.name_mode [
        | mode_device ↦ pad 12 (print_number 16 offset)
        | mode_files ↦ g.device_basename
      ]
          ++ b'-' ∷ (print_number 10 i ++ b'.' ∷ extension))

pub data Composed : Type 0 where
  composed : List ℕ → Composed
  too_long no_name : Composed

pub data Outcome : Type 0 where
  returned : ℕ → Outcome
  failed no_fuel : Outcome

-- `after_prefix` at every place of `s` in turn: what follows the first `t`.
unfoldable pub strstr_after : List ℕ → List ℕ → Option (List ℕ)
strstr_after [] t = none
strstr_after (c ∷ s) t = elim (after_prefix (c ∷ s) t) [ none ↦ strstr_after s t | some r ↦ some r ]

unfoldable pub until : ℕ → List ℕ → List ℕ
until stop [] = []
until stop (c ∷ s) = let rest = until stop s in if c == stop then [] else c ∷ rest

abbrev pub or_else : Option (List ℕ) → Option (List ℕ) → Option (List ℕ)
or_else none b = b
or_else (some a) b = some a

-- The new name in the output of the program: after `RENAME ` at its start, or else at the start of
-- a line, or else anywhere, up to the end of the line.
unfoldable pub rename_target : List ℕ → Option (List ℕ)
unfolding strstr_after until
rename_target output =
    let mvbuf = take (2 * path_max - 1) output in
    let s = until 0 mvbuf in
    let found =
      or_else (after_prefix s (codes "RENAME "))
        (or_else (strstr_after s (10 ∷ codes "RENAME ")) (strstr_after s (codes "RENAME "))) in
    if ltb 7 (length mvbuf) then elim found [ none ↦ none | some r ↦ some (until 10 r) ] else none

abbrev pub size_below : ℕ → ℤ → Bool
size_below n (pos m) = ltb n m
size_below n (negsuc m) = false

module _ {W : Type 0} (sys : System W) (g : Naming) where
  -- The loop over `i`, on fuel for the names that it tries.
  unfoldable pub compose_name : ℕ → ℕ → List ℕ → ℕ → W → Composed
  unfolding candidate
  compose_name zero offset extension i w = no_name
  compose_name (suc fuel) offset extension i w =
      elim (leb path_max (length (candidate g offset extension i))) [
        | true ↦ too_long
        | false ↦ elim (sys.lstat (candidate g offset extension i) w) [
          | true ↦ compose_name fuel offset extension (i + 1) w
          | false ↦ composed (candidate g offset extension i)
        ]
      ]

  -- `run_shell` without a pipe, and with one.
  unfoldable pub run_shell : ℕ → Option (List ℕ) → List ℕ → W → ℤ × W
  run_shell offset command argument w = elim (sys.lseek offset w) [
    | none ↦ (negsuc 0, w)
    | some w' ↦ sys.shell command argument w'
  ]

  unfoldable pub run_shell_pipe : ℕ → List ℕ → List ℕ → W → Option (List ℕ) × W
  run_shell_pipe offset command argument w = elim (sys.pipe w) [
    | none ↦ (none, w)
    | some v ↦ elim (sys.lseek offset v) [
      | none ↦ (none, v)
      | some v' ↦ let (out, v'') = sys.shell_output command argument v' in (some out, v'')
    ]
  ]

  -- The name that the output has in the end.
  unfoldable pub rename_to : ℕ → ℕ → List ℕ → Option (List ℕ) → W → List ℕ × W
  rename_to fuel offset origname none w = (origname, w)
  rename_to fuel offset origname (some new) w =
      if ltb (length new) 128
      then elim (compose_name fuel offset new 0 w) [
        | composed newname ↦ (newname, sys.rename origname newname w)
        | too_long ↦ (origname, w)
        | no_name ↦ (origname, w)
      ]
      else (origname, w)

  unfoldable pub rename_output : ℕ → ℕ → List ℕ → List ℕ → W → List ℕ × W
  unfolding run_shell_pipe rename_to rename_target
  rename_output fuel offset command origname w =
      let (out, v) = run_shell_pipe offset command origname w in
      elim out [
        | none ↦ (origname, v)
        | some text ↦ rename_to fuel offset origname (rename_target text) v
      ]

  unfoldable pub maybe_rename : ℕ → ℕ → List ℕ → Option (List ℕ) → W → List ℕ × W
  unfolding rename_output
  maybe_rename fuel offset outfile none w = (outfile, w)
  maybe_rename fuel offset outfile (some command) w = rename_output fuel offset command outfile w

  -- A rename, if the recipe has one, and then the `postextract` command on the name that results.
  unfoldable pub finish : ℕ → Recipe → ℕ → List ℕ → W → W
  unfolding maybe_rename run_shell
  finish fuel r offset outfile w =
      let (name, v) = maybe_rename fuel offset outfile r.rename w in
      elim r.postextract [ none ↦ v | some c ↦ (run_shell offset (some c) name v).1 ]

  -- What follows on `stat`.
  unfoldable pub keep_output : ℕ → Recipe → ℕ → List ℕ → Option ℕ → W → Outcome × W
  unfolding finish
  keep_output fuel r offset outfile none w = (returned 0, w)
  keep_output fuel r offset outfile (some n) w = elim (size_below n r.min_output_file) [
    | true ↦ (returned 0, sys.unlink outfile w)
    | false ↦ (returned n, finish fuel r offset outfile w)
  ]

  unfoldable pub after_command : ℕ → Recipe → ℕ → List ℕ → ℤ × W → Outcome × W
  unfolding keep_output
  after_command fuel r offset outfile (negsuc zero, w) = (failed, w)
  after_command fuel r offset outfile (negsuc (suc n), w) =
      keep_output fuel r offset outfile (sys.stat outfile w) w
  after_command fuel r offset outfile (pos n, w) =
      keep_output fuel r offset outfile (sys.stat outfile w) w

  unfoldable pub extract : ℕ → Recipe → ℕ → W → Outcome × W
  unfolding compose_name run_shell after_command
  extract fuel r offset w = elim (compose_name fuel offset r.extension 0 w) [
    | no_name ↦ (no_fuel, w)
    | too_long ↦ (failed, w)
    | composed outfile ↦ after_command fuel r offset outfile (run_shell offset r.command outfile w)
  ]
