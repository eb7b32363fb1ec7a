-- ===== src/Recur/Walk.antt =====
-- The files below a directory in the order of their paths in the tree, each directory before what it
-- holds: what `dirstack_next` of src/recur.c has still to report.
use magicrescue.Base.{
  ◌||◌, leb, get_or, take, length, ltb, ◌==◌, ◌-◌, ◌≡◌, ◌&&◌, not, if◌then◌else◌, inl, inr, refl,
  arith, Bool, Bool-cases, ℕ, zero, suc, true, false, Option, none, some, List, [], ◌∷◌, ◌++◌,
}
use magicrescue.Parse.Scanf.{bytes_eq}
use magicrescue.Recur.{Files, accept, strip_slash, dot}

-- The names `.` and `..`.
abbrev pub is_dots : List ℕ → Bool
is_dots [] = false
is_dots (c ∷ []) = c == b'.'
is_dots (c ∷ d ∷ []) = c == b'.' && d == b'.'
is_dots (c ∷ d ∷ e ∷ cs) = false

-- A path without its last byte, if that is a slash.
abbrev pub trimmed : List ℕ → List ℕ
trimmed path = if get_or path (length path - 1) 0 == b'/' then take (length path - 1) path else path

pub strip_slash-trimmed : (path : List ℕ) → strip_slash path ≡ trimmed path
unfolding strip_slash
strip_slash-trimmed [] = refl
strip_slash-trimmed (c ∷ []) = refl
strip_slash-trimmed (c ∷ d ∷ cs) =
    let z : length (c ∷ d ∷ cs) - 1 ≡ suc (length cs) = omega arith in
    let z' : length (d ∷ cs) - 1 ≡ length cs = omega arith in
    let h : strip_slash (d ∷ cs)
        ≡ (if get_or (d ∷ cs) (length cs) 0 == b'/' then take (length cs) (d ∷ cs) else d ∷ cs) =
      rw z' at (strip_slash-trimmed (d ∷ cs)) in
    elim (Bool-cases (get_or (d ∷ cs) (length cs) 0 == b'/')) [
      | inl e ↦ rw (z, h, e) refl
      | inr e ↦ rw (z, h, e) refl
    ]

pub is_dots-bytes_eq :
    (name : List ℕ) → (bytes_eq name dot || bytes_eq name (b'.' ∷ dot)) ≡ is_dots name
unfolding bytes_eq
is_dots-bytes_eq [] = refl
is_dots-bytes_eq (c ∷ []) = elim (Bool-cases (c == b'.')) [ inl e ↦ rw e refl | inr e ↦ rw e refl ]
is_dots-bytes_eq (c ∷ d ∷ []) = elim (Bool-cases (c == b'.')) [
  | inl e ↦ elim (Bool-cases (d == b'.')) [ inl k ↦ rw (e, k) refl | inr k ↦ rw (e, k) refl ]
  | inr e ↦ rw e refl
]
is_dots-bytes_eq (c ∷ d ∷ e ∷ cs) = elim (Bool-cases (c == b'.')) [
  | inl k ↦ elim (Bool-cases (d == b'.')) [ inl h ↦ rw (k, h) refl | inr h ↦ rw (k, h) refl ]
  | inr k ↦ rw k refl
]

module _ {S : Type 0} (fs : Files S) where
  -- What a directory holds, and nothing for another file.
  abbrev pub inside : (List ℕ → List (List ℕ) → List (List ℕ × S)) → List ℕ × S → List (List ℕ × S)
  inside sub (path, st) = elim (fs.is_dir st) [
    | true ↦ elim (fs.opendir path) [ none ↦ [] | some names ↦ sub path names ]
    | false ↦ []
  ]

  abbrev pub with_entry :
      (List ℕ → List (List ℕ) → List (List ℕ × S))
      → List (List ℕ × S)
      → Option (List ℕ × S)
      → List (List ℕ × S)
  with_entry sub rest none = rest
  with_entry sub rest (some e) = e ∷ inside sub e ++ rest

  -- An entry of a directory is a file that a caller may want: it is not one of the two links, its path
  -- fits into a buffer, and it is there.
  abbrev pub entry : List ℕ → List ℕ → Option (List ℕ × S)
  entry dir name =
      if not (is_dots name) && ltb (length (dir ++ b'/' ∷ name)) fs.path_max
      then elim (fs.lstat (dir ++ b'/' ∷ name)) [
        | none ↦ none
        | some st ↦ some (dir ++ b'/' ∷ name, st)
      ]
      else none

  pub accept-entry : (dir name : List ℕ) → accept fs dir name ≡ entry dir name
  unfolding accept
  accept-entry dir name = elim (Bool-cases (is_dots name)) [
    | inl d ↦ rw (accept, is_dots-bytes_eq name, d) refl
    | inr d ↦ elim (Bool-cases (leb fs.path_max (length (dir ++ b'/' ∷ name)))) [
      | inl l ↦
          let k : ltb (length (dir ++ b'/' ∷ name)) fs.path_max ≡ false = ground arith in
          rw (accept, is_dots-bytes_eq name, d, l, k) refl
      | inr l ↦
          let k : ltb (length (dir ++ b'/' ∷ name)) fs.path_max ≡ true = ground arith in
          rw (accept, is_dots-bytes_eq name, d, l, k) refl
    ]
  ]

  unfoldable pub walk_names :
      (List ℕ → List (List ℕ) → List (List ℕ × S)) → List ℕ → List (List ℕ) → List (List ℕ × S)
  walk_names sub prefix [] = []
  walk_names sub prefix (name ∷ names) =
      with_entry sub (walk_names sub prefix names) (entry prefix name)

  -- Directories are entered to the given depth.
  unfoldable pub walk : ℕ → List ℕ → List (List ℕ) → List (List ℕ × S)
  unfolding walk_names
  walk zero prefix names = walk_names (λ p ns. []) prefix names
  walk (suc d) prefix names = walk_names (walk d) prefix names
