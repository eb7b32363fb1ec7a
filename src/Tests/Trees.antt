-- ===== src/Tests/Trees.antt =====
-- Runs of `recur_next` and `rm_rf` on small trees.
use mathlib.Core.Path.{subst}
use magicrescue.Base.{
  ℕ, ◌≤◌, ◌≡◌, refl, ap, Bool, true, false, ◌||◌, Option, none, some, List, [], ◌∷◌, ◌++◌, get_or,
  ◌==◌, ◌&&◌, leb, if◌then◌else◌, length, All, arith,
}
use magicrescue.Parse.Scanf.{bytes_eq, codes}
use magicrescue.Recur.{Files, Recur, IsPlain, path_of, recur_open, recur_next}
use magicrescue.Recur.Paths.{listed, reports, recur_lists}
use magicrescue.Recur.Remove.{Volume, InTree, root, below, rm_rf, rm_dir, rm_rf-rm_dir, rm_rf-keeps}

-- The directory `d` holds the file `a` and the directory `s`, in which there is `b`.
abbrev pub names_in : Bool → Bool → Bool → Option (List (List ℕ))
names_in true d s = none
names_in false true s = some (codes "." ∷ codes ".." ∷ codes "a" ∷ codes "s" ∷ codes "c" ∷ [])
names_in false false true = some (codes "b" ∷ codes "." ∷ [])
names_in false false false = none

pub names_in-IsPlain :
    (l d s : Bool) (names : List (List ℕ)) → names_in l d s ≡ some names → All IsPlain names
names_in-IsPlain true d s names e = absurd cc
names_in-IsPlain false true s names e =
    let same : codes "." ∷ codes ".." ∷ codes "a" ∷ codes "s" ∷ codes "c" ∷ [] ≡ names = cc in
    subst (All IsPlain) same (refl, (refl, (refl, (refl, (refl, tt)))))
names_in-IsPlain false false true names e =
    let same : codes "b" ∷ codes "." ∷ [] ≡ names = cc in
    subst (All IsPlain) same (refl, (refl, tt))
names_in-IsPlain false false false names e = absurd cc

abbrev pub names_of : List ℕ → Option (List (List ℕ))
names_of p = names_in (leb 20 (length p)) (bytes_eq p (codes "d")) (bytes_eq p (codes "d/s"))

pub names_of_long : (p : List ℕ) → 20 ≤ length p → names_of p ≡ none
names_of_long p h = let l : leb 20 (length p) ≡ true = ground arith in rw (l) refl

-- The file `c` has been removed after it was listed.
abbrev pub stat_of : List ℕ → Option Bool
stat_of p =
    if leb 20 (length p) || bytes_eq p (codes "d/c")
    then none
    else some (bytes_eq p (codes "d") || bytes_eq p (codes "d/s"))

pub stat_of_long : (p : List ℕ) → 20 ≤ length p → stat_of p ≡ none
stat_of_long p h = let l : leb 20 (length p) ≡ true = ground arith in rw (l) refl

abbrev pub tree : Files Bool
tree = record {
  path_max = 20;
  opendir = names_of;
  lstat = stat_of;
  is_dir = λ b. b;
  opendir_names = λ p names e.
      names_in-IsPlain (leb 20 (length p)) (bytes_eq p (codes "d")) (bytes_eq p (codes "d/s")) names
        e;
  opendir_long = names_of_long;
  lstat_long = stat_of_long;
}

abbrev paths : List (List ℕ)
paths = codes "f" ∷ codes "d" ∷ []

abbrev at_start : Recur
at_start = record { list = paths; stack = none }

listed_run :
    listed tree paths
    ≡ (codes "f", false) ∷ (codes "d/a", false) ∷ (codes "d/s", true) ∷ (codes "d/s/b", false) ∷ []
unfolding listed bytes_eq magicrescue.Recur.Walk.walk magicrescue.Recur.strip_slash
listed_run = refl

recur_lists_example : reports tree 6 at_start ≡ listed tree paths
unfolding recur_open
recur_lists_example =
    recur_lists tree paths at_start 6 refl
      (let n : length (listed tree paths) ≡ 4 = ap length listed_run in omega (arith, n))

-- The state is the list of the paths that were removed.
abbrev volume : Volume (List (List ℕ))
volume = record {
  path_max = 20;
  opendir = λ p w. names_of p;
  lstat = λ p w. stat_of p;
  unlink = λ p w. p ∷ w;
  rmdir = λ p w. p ∷ w;
  opendir_names = λ p w names e.
      names_in-IsPlain (leb 20 (length p)) (bytes_eq p (codes "d")) (bytes_eq p (codes "d/s")) names
        e;
  opendir_long = λ p w h. names_of_long p h;
}

rm_rf_run : rm_rf volume (codes "d") [] ≡ codes "d" ∷ codes "d/s" ∷ codes "d/s/b" ∷ codes "d/a" ∷ []
unfolding rm_rf bytes_eq
rm_rf_run = refl

rm_rf-rm_dir_example : rm_rf volume (codes "d") [] ≡ rm_dir volume (rm_rf volume) (codes "d") []
rm_rf-rm_dir_example = rm_rf-rm_dir volume (codes "d") []

abbrev starts_with_d : List (List ℕ) → Bool
starts_with_d [] = true
starts_with_d (p ∷ ps) = get_or p 0 0 == b'd' && starts_with_d ps

first_stays : (p q : List ℕ) → get_or p 0 0 ≡ b'd' → get_or (p ++ q) 0 0 ≡ b'd'
first_stays [] q h = absurd (omega arith)
first_stays (c ∷ p) q h = h

InTree-first :
    (p : List ℕ) (is_dir : Bool)
    → InTree volume (codes "d") (codes "f" ∷ []) p is_dir
    → get_or p 0 0 ≡ b'd'
InTree-first p is_dir root = refl
InTree-first p is_dir (below path name b w t plain x y reached found) =
    first_stays path (b'/' ∷ name) (InTree-first path true t)

keeps_d :
    (is_dir : Bool) (p : List ℕ) (w : List (List ℕ))
    → InTree volume (codes "d") (codes "f" ∷ []) p is_dir
    → starts_with_d (p ∷ w) ≡ starts_with_d w
keeps_d is_dir p w t = let e = InTree-first p is_dir t in rw (e) refl

rm_rf-keeps_example :
    starts_with_d (rm_rf volume (codes "d") (codes "f" ∷ [])) ≡ starts_with_d (codes "f" ∷ [])
rm_rf-keeps_example =
    rm_rf-keeps volume starts_with_d (codes "d") (codes "f" ∷ []) (λ p w r. keeps_d false p w)
      (λ p w r. keeps_d true p w)
