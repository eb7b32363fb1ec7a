-- ===== src/Recur/Safe.antt =====
-- `struct dirstack` of src/recur.c stays inside its arrays, and its prefix is the directory it reads.
use mathlib.Core.Path.{subst}
use magicrescue.Base.{
  ℕ, suc, ◌≤◌, ◌<◌, ◌≡◌, inl, inr, refl, sym, ap, false, not, ◌&&◌, ◌||◌, Option, none, some, List,
  [], ◌∷◌, ◌==◌, leb, ltb, if◌then◌else◌, length, arith, Bool-cases, Option-cases, All, and_true,
}
use magicrescue.Parse.Scanf.{bytes_eq}
use magicrescue.Recur.{
  Files, Dirstack, is_plain, IsPlain, before_slash, parentdir, strip_slash, dot, path_of, accept,
  enter, max_depth,
}

before_slash-plain : (name : List ℕ) → IsPlain name → before_slash name ≡ none
unfolding before_slash
before_slash-plain [] h = refl
before_slash-plain (c ∷ cs) h =
    let (first, rest) = and_true (not (c == b'/')) (is_plain cs) h in
    let other : (c == b'/') ≡ false = ground arith in rw (before_slash-plain cs rest, other) refl

before_slash-path_of :
    (dir name : List ℕ) → IsPlain name → before_slash (path_of dir name) ≡ some dir
unfolding before_slash
before_slash-path_of [] name h = rw (before_slash-plain name h) refl
before_slash-path_of (c ∷ dir) name h = rw (before_slash-path_of dir name h) refl

pub parentdir-path_of : (dir name : List ℕ) → IsPlain name → parentdir (path_of dir name) ≡ dir
unfolding parentdir
parentdir-path_of dir name h = rw (before_slash-path_of dir name h, parentdir) refl

before_slash_bound : (s front : List ℕ) → before_slash s ≡ some front → length front ≤ length s
unfolding before_slash
before_slash_bound [] front e = absurd cc
before_slash_bound (c ∷ cs) front e = go (λ f k. before_slash_bound cs f k) (before_slash cs) refl e
  where
    go :
        ((f : List ℕ) → before_slash cs ≡ some f → length f ≤ length cs)
        → (r : Option (List ℕ)) → before_slash cs ≡ r
        → elim r [ some f ↦ some (c ∷ f) | none ↦ if c == b'/' then some [] else none ] ≡ some front
        → length front ≤ suc (length cs)
    go rec (some f) k e =
        let same : c ∷ f ≡ front = cc in
        subst (λ x. length x ≤ suc (length cs)) same (omega (arith, rec f k))
    go rec none k e = elim (Bool-cases (c == b'/')) [
      | inl z ↦
          let e' : some [] ≡ some front = rw (z) at e in
          let same : [] ≡ front = cc in subst (λ x. length x ≤ suc (length cs)) same (omega arith)
      | inr z ↦ let e' : none ≡ some front = rw (z) at e in absurd cc
    ]

pub parentdir_bound : (s : List ℕ) → length (parentdir s) ≤ length s
unfolding parentdir
parentdir_bound s = elim (Option-cases (before_slash s)) [
  | inl e ↦ rw (e, parentdir) (omega arith)
  | inr (f, e) ↦ rw (e, parentdir) (before_slash_bound s f e)
]

pub strip_slash_bound : (s : List ℕ) → length (strip_slash s) ≤ length s
unfolding strip_slash
strip_slash_bound [] = omega arith
strip_slash_bound (c ∷ []) = ground arith
strip_slash_bound (c ∷ d ∷ cs) = omega (arith, strip_slash_bound (d ∷ cs))

module _ {S : Type 0} (fs : Files S) where
  -- The path of an accepted entry is that of the name in the directory, and fits into a buffer.
  pub accept-some :
      (prefix name : List ℕ) (e : List ℕ × S)
      → accept fs prefix name ≡ some e
      → (e.0 ≡ path_of prefix name) × (length e.0 < fs.path_max)
  unfolding accept
  accept-some prefix name e h =
      elim (Bool-cases (bytes_eq name dot || bytes_eq name (b'.' ∷ dot))) [
        | inl d ↦ let h' : none ≡ some e = rw (d, accept) at h in absurd cc
        | inr d ↦ elim (Bool-cases (leb fs.path_max (length (path_of prefix name)))) [
          | inl l ↦ let h' : none ≡ some e = rw (d, l, accept) at h in absurd cc
          | inr l ↦ elim (Option-cases (fs.lstat (path_of prefix name))) [
            | inl z ↦ let h' : none ≡ some e = rw (d, l, z, accept) at h in absurd cc
            | inr (st, z) ↦
                let h' : some (path_of prefix name, st) ≡ some e = rw (d, l, z, accept) at h in
                let same : (path_of prefix name, st) ≡ e = cc in
                (
                  ap (λ x. x.0) (sym same),
                  subst (λ x. length x.0 < fs.path_max) same (ground arith),
                )
          ]
        ]
      ]

  -- The stack and the strings are inside their arrays, and the names have no slash.
  pub record IsSafe (s : Dirstack) : Type 0 where
    pub plain : All (All IsPlain) s.dirs
    pub depth : length s.dirs ≤ max_depth
    pub fits : length s.prefix < fs.path_max

  pub enter-IsSafe :
      (e : List ℕ × S) (s : Dirstack) → length e.0 < fs.path_max → IsSafe s → IsSafe (enter fs e s)
  unfolding enter
  enter-IsSafe (path, st) s h safe =
      elim (Bool-cases (fs.is_dir st && ltb (length s.dirs) max_depth)) [
        | inr z ↦ rw (z, enter) safe
        | inl z ↦ elim (Option-cases (fs.opendir path)) [
          | inl o ↦ rw (z, o, enter) safe
          | inr (names, o) ↦
              let (d, l) = and_true (fs.is_dir st) (ltb (length s.dirs) max_depth) z in
              rw (z, o, enter)
                (record {
                  plain = (fs.opendir_names path names o, safe.plain);
                  depth = ground arith;
                  fits = h;
                })
        ]
      ]
