-- ===== src/Recur.antt =====
-- src/recur.c: `recur_next` reports the files of directories one at a time. A directory stream is the
-- sequence of the names that `readdir` will return on it.
pub mod Safe
pub mod Walk
pub mod Listing
pub mod Paths
pub mod Remove
use magicrescue.Base.{
  ℕ, zero, suc, ◌+◌, ◌≤◌, ◌≡◌, Bool, true, false, ◌&&◌, ◌||◌, not, Option, none, some, List, [],
  ◌∷◌, ◌++◌, ltb, leb, ◌==◌, if◌then◌else◌, length, All,
}
use magicrescue.Parse.Scanf.{bytes_eq}

-- No byte of a name is a slash.
abbrev pub is_plain : List ℕ → Bool
is_plain [] = true
is_plain (c ∷ cs) = not (c == b'/') && is_plain cs

abbrev pub IsPlain : List ℕ → Type 0
IsPlain name = is_plain name ≡ true

-- The calls of `opendir` and `lstat`, as POSIX describes them: `none` is a failure.
pub record Files (S : Type 0) : Type 0 where
  pub path_max : ℕ
  pub opendir : List ℕ → Option (List (List ℕ))
  pub lstat : List ℕ → Option S
  pub is_dir : S → Bool
  -- A name in a directory has no slash.
  pub opendir_names :
      (path : List ℕ) (names : List (List ℕ)) → opendir path ≡ some names → All IsPlain names
  -- A path that does not fit into PATH_MAX bytes with its terminator is ENAMETOOLONG.
  pub opendir_long : (path : List ℕ) → path_max ≤ length path → opendir path ≡ none
  pub lstat_long : (path : List ℕ) → path_max ≤ length path → lstat path ≡ none

-- `struct dirstack`: the open directories, the one that `pos` points at first, and the path of it.
pub record Dirstack : Type 0 where
  pub dirs : List (List (List ℕ))
  pub prefix : List ℕ

-- `struct recur`: the paths that are left, and `none` for a null pointer.
pub record Recur : Type 0 where
  pub list : List (List ℕ)
  pub stack : Option Dirstack

-- The part of a string in front of its last slash, if it has one.
unfoldable pub before_slash : List ℕ → Option (List ℕ)
before_slash [] = none
before_slash (c ∷ cs) = elim (before_slash cs) [
  | some front ↦ some (c ∷ front)
  | none ↦ if c == b'/' then some [] else none
]

unfoldable pub parentdir : List ℕ → List ℕ
unfolding before_slash
parentdir s = elim (before_slash s) [ some front ↦ front | none ↦ s ]

-- The path without a slash at its end.
unfoldable pub strip_slash : List ℕ → List ℕ
strip_slash [] = []
strip_slash (c ∷ []) = if c == b'/' then [] else c ∷ []
strip_slash (c ∷ d ∷ cs) = c ∷ strip_slash (d ∷ cs)

abbrev pub dot : List ℕ
dot = b'.' ∷ []

abbrev pub max_depth : ℕ
max_depth = 100

abbrev pub path_of : List ℕ → List ℕ → List ℕ
path_of dir name = dir ++ b'/' ∷ name

module _ {S : Type 0} (fs : Files S) where
  unfoldable pub dirstack_open : List ℕ → Option Dirstack
  unfolding strip_slash
  dirstack_open path = elim (fs.opendir path) [
    | none ↦ none
    | some names ↦ some (record { dirs = names ∷ []; prefix = strip_slash path })
  ]

  -- The tests of the outer `while`: the path and what `lstat` says of it if they let the entry pass.
  unfoldable pub accept : List ℕ → List ℕ → Option (List ℕ × S)
  accept prefix name =
      if bytes_eq name dot || bytes_eq name (b'.' ∷ dot)
      then none
      else if leb fs.path_max (length (path_of prefix name))
      then none
      else elim (fs.lstat (path_of prefix name)) [
        | none ↦ none
        | some st ↦ some (path_of prefix name, st)
      ]

  abbrev pub or_else :
      Option ((List ℕ × S) × List (List ℕ))
      → List (List ℕ)
      → Option (List ℕ × S)
      → Option ((List ℕ × S) × List (List ℕ))
  or_else rest names none = rest
  or_else rest names (some e) = some (e, names)

  -- The first entry of a directory that is accepted, and the names behind it.
  unfoldable pub read_on : List ℕ → List (List ℕ) → Option ((List ℕ × S) × List (List ℕ))
  unfolding accept
  read_on prefix [] = none
  read_on prefix (name ∷ names) = or_else (read_on prefix names) names (accept prefix name)

  -- A directory that was found becomes the one to read, unless the stack is full.
  unfoldable pub enter : List ℕ × S → Dirstack → Dirstack
  enter (path, st) s =
      if fs.is_dir st && ltb (length s.dirs) max_depth
      then elim (fs.opendir path) [
        | none ↦ s
        | some names ↦ record { dirs = names ∷ s.dirs; prefix = path }
      ]
      else s

  abbrev pub after_read :
      Option ((List ℕ × S) × Dirstack)
      → List (List (List ℕ))
      → List ℕ
      → Option ((List ℕ × S) × List (List ℕ))
      → Option ((List ℕ × S) × Dirstack)
  after_read up below prefix none = up
  after_read up below prefix (some (e, names)) =
      some (e, enter e (record { dirs = names ∷ below; prefix = prefix }))

  -- The loops of `dirstack_next`: at the end of a directory the one that holds it goes on.
  unfoldable pub next_in : List (List (List ℕ)) → List ℕ → Option ((List ℕ × S) × Dirstack)
  unfolding read_on enter parentdir
  next_in [] prefix = none
  next_in (names ∷ below) prefix =
      after_read (next_in below (parentdir prefix)) below prefix (read_on prefix names)

  unfoldable pub dirstack_next : Dirstack → Option ((List ℕ × S) × Dirstack)
  unfolding next_in
  dirstack_next s = next_in s.dirs s.prefix

  -- `paths` ends at a null pointer.
  unfoldable pub recur_open : List (List ℕ) → Option Recur
  recur_open [] = none
  recur_open (path ∷ paths) =
      if leb fs.path_max (length path)
      then none
      else some (record { list = path ∷ paths; stack = none })

  abbrev pub after_next :
      Option ((List ℕ × S) × Recur)
      → List (List ℕ)
      → Option ((List ℕ × S) × Dirstack)
      → Option ((List ℕ × S) × Recur)
  after_next others list none = others
  after_next others list (some (e, s)) = some (e, record { list = list; stack = some s })

  -- The body of the `while` of `recur_next`, from the place where a stack has ended.
  unfoldable pub next_path : List (List ℕ) → Option ((List ℕ × S) × Recur)
  unfolding dirstack_open dirstack_next
  next_path [] = none
  next_path (cur ∷ list) =
      let others = next_path list in
      elim (dirstack_open cur) [
        | some s ↦ after_next others list (dirstack_next s)
        | none ↦ elim (fs.lstat cur) [
          | some st ↦ some ((cur, st), record { list = list; stack = none })
          | none ↦ others
        ]
      ]

  -- `none` is -1.
  unfoldable pub recur_next : Recur → Option ((List ℕ × S) × Recur)
  unfolding next_path
  recur_next r = elim r.stack [
    | none ↦ next_path r.list
    | some s ↦ after_next (next_path r.list) r.list (dirstack_next s)
  ]
