-- ===== src/Recur/Remove.antt =====
-- `rm_rf` of src/recur.c. The file system is a state, which `unlink` and `rmdir` change.
use magicrescue.Base.{
  ℕ, zero, suc, ◌+◌, ◌≤◌, ◌<◌, ◌≡◌, inl, inr, refl, ap, ◌∙◌, Bool, true, false, ◌||◌, Option, none,
  some, List, [], ◌∷◌, leb, if◌then◌else◌, length, length-append, arith, Bool-cases, Option-cases,
  All,
}
use magicrescue.Parse.Scanf.{bytes_eq}
use magicrescue.Recur.{IsPlain, dot, path_of}

-- What `rm_rf` calls; `lstat` says whether it is a directory, and none is a failure.
pub record Volume (W : Type 0) : Type 0 where
  pub path_max : ℕ
  pub opendir : List ℕ → W → Option (List (List ℕ))
  pub lstat : List ℕ → W → Option Bool
  pub unlink : List ℕ → W → W
  pub rmdir : List ℕ → W → W
  -- A name in a directory has no slash.
  pub opendir_names :
      (path : List ℕ) (w : W) (names : List (List ℕ))
      → opendir path w ≡ some names
      → All IsPlain names
  pub opendir_long : (path : List ℕ) (w : W) → path_max ≤ length path → opendir path w ≡ none

module _ {W : Type 0} (fs : Volume W) where
  abbrev pub is_skipped : List ℕ → List ℕ → Bool
  is_skipped dir name =
      bytes_eq name dot
      || (bytes_eq name (b'.' ∷ dot) || leb fs.path_max (length (path_of dir name)))

  -- The body of the `while`; `sub` is the recursive call.
  unfoldable pub rm_entry : (List ℕ → W → W) → List ℕ → List ℕ → W → W
  rm_entry sub dir name w =
      if is_skipped dir name then w else elim (fs.lstat (path_of dir name) w) [
        | none ↦ w
        | some true ↦ sub (path_of dir name) w
        | some false ↦ fs.unlink (path_of dir name) w
      ]

  unfoldable pub rm_names : (List ℕ → W → W) → List ℕ → List (List ℕ) → W → W
  unfolding rm_entry
  rm_names sub dir [] w = w
  rm_names sub dir (name ∷ names) w = rm_names sub dir names (rm_entry sub dir name w)

  unfoldable pub rm_dir : (List ℕ → W → W) → List ℕ → W → W
  unfolding rm_names
  rm_dir sub dir w = elim (fs.opendir dir w) [
    | none ↦ w
    | some names ↦ fs.rmdir dir (rm_names sub dir names w)
  ]

  -- On fuel for the depth: a path gets longer with each level.
  unfoldable pub rm_levels : ℕ → List ℕ → W → W
  unfolding rm_dir
  rm_levels zero dir w = w
  rm_levels (suc fuel) dir w = rm_dir (rm_levels fuel) dir w

  unfoldable pub rm_rf : List ℕ → W → W
  unfolding rm_levels
  rm_rf dir w = rm_levels fs.path_max dir w

  longer : (dir name : List ℕ) → length dir < length (path_of dir name)
  longer dir name = omega (arith, length-append dir (b'/' ∷ name))

  -- Two recursive calls that agree on the longer paths are the same in the body.
  rm_entry-ext :
      (f g : List ℕ → W → W) (dir name : List ℕ) (w : W)
      → ((p : List ℕ) (u : W) → length dir < length p → f p u ≡ g p u)
      → rm_entry f dir name w ≡ rm_entry g dir name w
  unfolding rm_entry
  rm_entry-ext f g dir name w h = elim (Bool-cases (is_skipped dir name)) [
    | inl s ↦ rw (s, rm_entry) refl
    | inr s ↦ elim (Option-cases (fs.lstat (path_of dir name) w)) [
      | inl e ↦ rw (s, e, rm_entry) refl
      | inr (true, e) ↦ rw (s, e, rm_entry) (h (path_of dir name) w (longer dir name))
      | inr (false, e) ↦ rw (s, e, rm_entry) refl
    ]
  ]

  rm_names-ext :
      (f g : List ℕ → W → W) (dir : List ℕ) (names : List (List ℕ)) (w : W)
      → ((p : List ℕ) (u : W) → length dir < length p → f p u ≡ g p u)
      → rm_names f dir names w ≡ rm_names g dir names w
  unfolding rm_names
  rm_names-ext f g dir [] w h = refl
  rm_names-ext f g dir (name ∷ names) w h =
      ap (rm_names f dir names) (rm_entry-ext f g dir name w h)
      ∙ rm_names-ext f g dir names (rm_entry g dir name w) h

  rm_dir-ext :
      (f g : List ℕ → W → W) (dir : List ℕ) (w : W)
      → ((p : List ℕ) (u : W) → length dir < length p → f p u ≡ g p u)
      → rm_dir f dir w ≡ rm_dir g dir w
  unfolding rm_dir
  rm_dir-ext f g dir w h = elim (Option-cases (fs.opendir dir w)) [
    | inl e ↦ rw (e, rm_dir) refl
    | inr (names, e) ↦ rw (e, rm_dir) (ap (fs.rmdir dir) (rm_names-ext f g dir names w h))
  ]

  rm_levels-enough :
      (n m : ℕ) (dir : List ℕ) (w : W)
      → fs.path_max ≤ length dir + n
      → fs.path_max ≤ length dir + m
      → rm_levels n dir w ≡ rm_levels m dir w
  unfolding rm_levels rm_dir
  rm_levels-enough zero zero dir w h k = refl
  rm_levels-enough zero (suc m) dir w h k = rw (fs.opendir_long dir w (omega arith), rm_dir) refl
  rm_levels-enough (suc n) zero dir w h k = rw (fs.opendir_long dir w (omega arith), rm_dir) refl
  rm_levels-enough (suc n) (suc m) dir w h k =
      rm_dir-ext (rm_levels n) (rm_levels m) dir w
        (λ p u l. rm_levels-enough n m p u (omega arith) (omega arith))

  -- The recursion of `rm_rf` ends: the function is what its body computes with itself as the recursive
  -- call, on every directory and in every state of the file system, which calls may change in any way.
  pub rm_rf-rm_dir : (dir : List ℕ) (w : W) → rm_rf dir w ≡ rm_dir rm_rf dir w
  unfolding rm_rf rm_levels rm_dir
  rm_rf-rm_dir dir w =
      rm_levels-enough fs.path_max (suc fs.path_max) dir w (omega arith) (omega arith)

  -- The states of the file system that removals lead to from a first one.
  pub data Reached (start : W) : W → Type 0 where
    at_start : Reached start start
    after_unlink : {w : W} (path : List ℕ) → Reached start w → Reached start (fs.unlink path w)
    after_rmdir : {w : W} (path : List ℕ) → Reached start w → Reached start (fs.rmdir path w)

  -- The paths of a tree, and whether they are directories: its root, and what a directory of it and a
  -- name without a slash make, where the name is neither `.` nor `..` and `lstat`, which does not follow
  -- links, finds a file there in a state that is reached.
  pub data InTree (dir : List ℕ) (start : W) : List ℕ → Bool → Type 0 where
    root : InTree dir start dir true
    below :
        (path name : List ℕ) (is_dir : Bool) (w : W)
        → InTree dir start path true
        → IsPlain name
        → bytes_eq name dot ≡ false
        → bytes_eq name (b'.' ∷ dot) ≡ false
        → Reached start w
        → fs.lstat (path_of path name) w ≡ some is_dir
        → InTree dir start (path_of path name) is_dir

  module _ {X : Type 0} (look : W → X) (dir : List ℕ) (start : W)
      (keeps_unlink : (path : List ℕ) (w : W)
        → Reached start w
        → InTree dir start path false
        → look (fs.unlink path w) ≡ look w)
      (keeps_rmdir : (path : List ℕ) (w : W)
        → Reached start w
        → InTree dir start path true
        → look (fs.rmdir path w) ≡ look w) where
    -- A state that is reached, and in which what is looked at is as in another.
    abbrev Keeps : W → W → Type 0
    Keeps w w' = Reached start w' × (look w' ≡ look w)

    rm_entry-Keeps :
        (sub : List ℕ → W → W) (path name : List ℕ) (w : W)
        → ((p : List ℕ) (u : W) → Reached start u → InTree dir start p true → Keeps u (sub p u))
        → Reached start w
        → InTree dir start path true
        → IsPlain name
        → Keeps w (rm_entry sub path name w)
    unfolding rm_entry
    rm_entry-Keeps sub path name w h reached t plain = elim (Bool-cases (is_skipped path name)) [
      | inl s ↦ rw (s, rm_entry) (reached, refl)
      | inr s ↦
          let p = path_of path name in
          let in_tree : (b : Bool) → fs.lstat p w ≡ some b → InTree dir start p b =
            λ b e. below path name b w t plain (ground arith) (ground arith) reached e in
          elim (Option-cases (fs.lstat p w)) [
            | inl e ↦ rw (s, e, rm_entry) (reached, refl)
            | inr (true, e) ↦ rw (s, e, rm_entry) (h p w reached (in_tree true e))
            | inr (false, e) ↦
                rw (s, e, rm_entry)
                  (after_unlink p reached, keeps_unlink p w reached (in_tree false e))
          ]
    ]

    rm_names-Keeps :
        (sub : List ℕ → W → W) (path : List ℕ) (names : List (List ℕ)) (w : W)
        → ((p : List ℕ) (u : W) → Reached start u → InTree dir start p true → Keeps u (sub p u))
        → Reached start w
        → InTree dir start path true
        → All IsPlain names
        → Keeps w (rm_names sub path names w)
    unfolding rm_names
    rm_names-Keeps sub path [] w h reached t plain = (reached, refl)
    rm_names-Keeps sub path (name ∷ names) w h reached t (plain, rest) =
        let (after, same) = rm_entry-Keeps sub path name w h reached t plain in
        let (end, same') =
          rm_names-Keeps sub path names (rm_entry sub path name w) h after t rest in
        (end, same' ∙ same)

    rm_levels-Keeps :
        (n : ℕ) (path : List ℕ) (w : W)
        → Reached start w
        → InTree dir start path true
        → Keeps w (rm_levels n path w)
    unfolding rm_levels rm_dir
    rm_levels-Keeps zero path w reached t = (reached, refl)
    rm_levels-Keeps (suc n) path w reached t = elim (Option-cases (fs.opendir path w)) [
      | inl e ↦ rw (e, rm_dir) (reached, refl)
      | inr (names, e) ↦
          let emptied = rm_names (rm_levels n) path names w in
          let (after, same) =
            rm_names-Keeps (rm_levels n) path names w (λ p u k t'. rm_levels-Keeps n p u k t')
              reached t (fs.opendir_names path w names e) in
          rw (e, rm_dir) (after_rmdir path after, keeps_rmdir path emptied after t ∙ same)
    ]

    -- Whatever of the file system is not changed by the `unlink` of a path of the tree below a
    -- directory that is no directory itself, nor by the `rmdir` of a directory of it, is as it was after
    -- `rm_rf` on that directory. The tree is entered by names without a slash other than `.` and `..`,
    -- and only through what `lstat`, which does not follow links, says is a directory, in the states that
    -- removals lead to from the first one.
    pub rm_rf-keeps : look (rm_rf dir start) ≡ look start
    unfolding rm_rf
    rm_rf-keeps = (rm_levels-Keeps fs.path_max dir start at_start root).1
