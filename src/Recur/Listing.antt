-- ===== src/Recur/Listing.antt =====
-- The calls of `recur_next` of src/recur.c one after another, and the list of what they report.
use mathlib.Core.List.{append_assoc}
use magicrescue.Base.{
  ℕ, zero, suc, ◌-◌, ◌≤◌, ◌<◌, ◌≡◌, inl, inr, refl, sym, ap, ◌∙◌, Option, none, some, List, [], ◌∷◌,
  ◌++◌, ltb, length, arith, Bool-cases, Option-cases, All,
}
use magicrescue.Recur.{
  Files, Dirstack, IsPlain, parentdir, max_depth, accept, or_else, read_on, enter, after_read,
  next_in,
}
use magicrescue.Recur.Walk.{accept-entry, inside, walk_names, walk}
use magicrescue.Recur.Safe.{IsSafe, accept-some, enter-IsSafe, parentdir-path_of, parentdir_bound}

module _ {S : Type 0} (fs : Files S) where
  -- What is found in a directory is its next entry, and the names behind it are left.
  abbrev IsRead :
      (List ℕ → List (List ℕ) → List (List ℕ × S))
      → List ℕ
      → List (List ℕ)
      → Option ((List ℕ × S) × List (List ℕ))
      → Type 0
  IsRead sub prefix names none = walk_names fs sub prefix names ≡ []
  IsRead sub prefix names (some (e, rest)) =
      (walk_names fs sub prefix names ≡ e ∷ inside fs sub e ++ walk_names fs sub prefix rest)
      × (parentdir e.0 ≡ prefix)
      × (length e.0 < fs.path_max)
      × All IsPlain rest

  or_else-IsRead :
      (sub : List ℕ → List (List ℕ) → List (List ℕ × S)) (prefix name : List ℕ)
      (names : List (List ℕ)) (found : Option (List ℕ × S))
      (rest : Option ((List ℕ × S) × List (List ℕ)))
      → accept fs prefix name ≡ found
      → IsPlain name
      → All IsPlain names
      → IsRead sub prefix names rest
      → IsRead sub prefix (name ∷ names) (or_else fs rest names found)
  unfolding walk_names
  or_else-IsRead sub prefix name names none none e h hs r =
      let e' = sym (accept-entry fs prefix name) ∙ e in rw (e', walk_names) r
  or_else-IsRead sub prefix name names none (some (x, rest)) e h hs (r, back, fits, plain) =
      let e' = sym (accept-entry fs prefix name) ∙ e in (rw (e', walk_names) r, back, fits, plain)
  or_else-IsRead sub prefix name names (some x) rest e h hs r =
      let (path, fits) = accept-some fs prefix name x e in
      let e' = sym (accept-entry fs prefix name) ∙ e in
      (rw (e', walk_names) refl, ap parentdir path ∙ parentdir-path_of prefix name h, fits, hs)

  read_on-IsRead :
      (sub : List ℕ → List (List ℕ) → List (List ℕ × S)) (prefix : List ℕ) (names : List (List ℕ))
      → All IsPlain names
      → IsRead sub prefix names (read_on fs prefix names)
  unfolding read_on walk_names
  read_on-IsRead sub prefix [] h = refl
  read_on-IsRead sub prefix (name ∷ names) (h, hs) =
      or_else-IsRead sub prefix name names (accept fs prefix name) (read_on fs prefix names) refl h
        hs (read_on-IsRead sub prefix names hs)

  -- What is below a directory that is entered with `d` levels left.
  abbrev sub_of : ℕ → List ℕ → List (List ℕ) → List (List ℕ × S)
  sub_of zero = λ p ns. []
  sub_of (suc d) = walk fs d

  walk_sub :
      (d : ℕ) (p : List ℕ) (ns : List (List ℕ)) → walk fs d p ns ≡ walk_names fs (sub_of d) p ns
  unfolding walk
  walk_sub zero p ns = refl
  walk_sub (suc d) p ns = refl

  -- What a stack has still to report.
  unfoldable pub remaining : List (List (List ℕ)) → List ℕ → List (List ℕ × S)
  remaining [] prefix = []
  remaining (names ∷ below) prefix =
      walk fs (max_depth - suc (length below)) prefix names ++ remaining below (parentdir prefix)

  remaining-enter :
      (e : List ℕ × S) (s : Dirstack)
      → length s.dirs ≤ max_depth
      → parentdir e.0 ≡ s.prefix
      → remaining (enter fs e s).dirs (enter fs e s).prefix
        ≡ inside fs (sub_of (max_depth - length s.dirs)) e ++ remaining s.dirs s.prefix
  unfolding enter remaining
  remaining-enter (path, st) s h up = elim (Bool-cases (fs.is_dir st)) [
    | inr z ↦ rw (z, enter, inside) refl
    | inl z ↦ elim (Option-cases (fs.opendir path)) [
      | inl o ↦ elim (Bool-cases (ltb (length s.dirs) max_depth)) [
        | inl l ↦ rw (z, l, o, enter, inside) refl
        | inr l ↦ rw (z, l, o, enter, inside) refl
      ]
      | inr (names, o) ↦ elim (Bool-cases (ltb (length s.dirs) max_depth)) [
        | inl l ↦
            let k : max_depth - length s.dirs ≡ suc (max_depth - suc (length s.dirs)) =
              ground arith in
            rw (z, l, o, enter, k, up, remaining, inside) refl
        | inr l ↦
            let k : max_depth - length s.dirs ≡ 0 = ground arith in
            rw (z, l, o, enter, k, inside) refl
      ]
    ]
  ]

  abbrev pub IsNext : List (List (List ℕ)) → List ℕ → Option ((List ℕ × S) × Dirstack) → Type 0
  IsNext dirs prefix none = remaining dirs prefix ≡ []
  IsNext dirs prefix (some (e, s)) =
      (remaining dirs prefix ≡ e ∷ remaining s.dirs s.prefix)
      × IsSafe fs s
      × (length e.0 < fs.path_max)

  after_read-IsNext :
      (up : Option ((List ℕ × S) × Dirstack)) (below : List (List (List ℕ))) (prefix : List ℕ)
      (names : List (List ℕ)) (r : Option ((List ℕ × S) × List (List ℕ)))
      → IsSafe fs (record { dirs = names ∷ below; prefix = prefix })
      → IsNext below (parentdir prefix) up
      → IsRead (sub_of (max_depth - suc (length below))) prefix names r
      → IsNext (names ∷ below) prefix (after_read fs up below prefix r)
  unfolding remaining
  after_read-IsNext none below prefix names none safe h r =
      ap (λ t. t ++ remaining below (parentdir prefix))
        (walk_sub (max_depth - suc (length below)) prefix names ∙ r)
      ∙ h
  after_read-IsNext (some (e, s)) below prefix names none safe (h, ok, fits) r = (
    ap (λ t. t ++ remaining below (parentdir prefix))
          (walk_sub (max_depth - suc (length below)) prefix names ∙ r)
        ∙ h,
    ok,
    fits,
  )
  after_read-IsNext up below prefix names (some (e, rest)) safe h (r, back, fits, plain) =
      let s : Dirstack = record { dirs = rest ∷ below; prefix = prefix } in
      let d = max_depth - suc (length below) in
      let R = remaining below (parentdir prefix) in
      let ok : IsSafe fs s = record {
        plain = (plain, safe.plain.1);
        depth = safe.depth;
        fits = safe.fits;
      } in
      (
        ap (λ t. t ++ R) (walk_sub d prefix names ∙ r)
            ∙ ap (λ t. e ∷ t)
                (append_assoc (inside fs (sub_of d) e) (walk_names fs (sub_of d) prefix rest) R
                  ∙ ap (λ t. inside fs (sub_of d) e ++ (t ++ R)) (sym (walk_sub d prefix rest))
                  ∙ sym (remaining-enter e s safe.depth back)),
        enter-IsSafe fs e s fits ok,
        fits,
      )

  pub next_in-IsNext :
      (dirs : List (List (List ℕ))) (prefix : List ℕ)
      → IsSafe fs (record { dirs = dirs; prefix = prefix })
      → IsNext dirs prefix (next_in fs dirs prefix)
  unfolding next_in remaining
  next_in-IsNext [] prefix safe = refl
  next_in-IsNext (names ∷ below) prefix safe =
      after_read-IsNext (next_in fs below (parentdir prefix)) below prefix names
        (read_on fs prefix names) safe
        (next_in-IsNext below (parentdir prefix) (record {
          plain = safe.plain.1;
          depth = omega (arith, safe.depth);
          fits = omega (arith, parentdir_bound prefix, safe.fits);
        }))
        (read_on-IsRead (sub_of (max_depth - suc (length below))) prefix names safe.plain.0)
