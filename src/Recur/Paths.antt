-- ===== src/Recur/Paths.antt =====
-- `recur_next` of src/recur.c on the paths that `recur_open` was given.
use mathlib.Core.Path.{subst}
use mathlib.Core.List.{append-nil}
use magicrescue.Base.{
  ℕ, zero, suc, ◌≤◌, ◌<◌, ◌≡◌, inl, inr, refl, sym, ap, ◌∙◌, Option, none, some, List, [], ◌∷◌,
  ◌++◌, leb, length, arith, Bool-cases, Option-cases,
}
use magicrescue.Recur.{
  Files, Dirstack, Recur, strip_slash, dirstack_open, dirstack_next, recur_open, after_next,
  next_path, recur_next,
}
use magicrescue.Recur.Walk.{walk, trimmed, strip_slash-trimmed}
use magicrescue.Recur.Safe.{IsSafe, strip_slash_bound}
use magicrescue.Recur.Listing.{IsNext, remaining, next_in-IsNext}

module _ {S : Type 0} (fs : Files S) where
  -- The files below a directory, another file itself, and nothing for a path that is none.
  abbrev pub from_path : List ℕ → List (List ℕ × S)
  from_path path = elim (fs.opendir path) [
    | some names ↦ walk fs 99 (trimmed path) names
    | none ↦ elim (fs.lstat path) [ some st ↦ (path, st) ∷ [] | none ↦ [] ]
  ]

  unfoldable pub listed : List (List ℕ) → List (List ℕ × S)
  listed [] = []
  listed (path ∷ paths) = from_path path ++ listed paths

  abbrev pub pending : Recur → List (List ℕ × S)
  pending r = elim r.stack [
    | none ↦ listed r.list
    | some s ↦ remaining fs s.dirs s.prefix ++ listed r.list
  ]

  abbrev pub IsFine : Recur → Type 0
  IsFine r = (s : Dirstack) → r.stack ≡ some s → IsSafe fs s

  -- The report is the first file of a list, and the others are left; or there is none.
  abbrev pub IsReport : List (List ℕ × S) → Option ((List ℕ × S) × Recur) → Type 0
  IsReport xs none = xs ≡ []
  IsReport xs (some (e, r)) = (xs ≡ e ∷ pending r) × IsFine r × (length e.0 < fs.path_max)

  after_next-IsReport :
      (others : Option ((List ℕ × S) × Recur)) (list : List (List ℕ)) (s : Dirstack)
      (r : Option ((List ℕ × S) × Dirstack))
      → IsNext fs s.dirs s.prefix r
      → IsReport (listed list) others
      → IsReport (remaining fs s.dirs s.prefix ++ listed list) (after_next fs others list r)
  after_next-IsReport none list s none h k = ap (λ t. t ++ listed list) h ∙ k
  after_next-IsReport (some (e, r)) list s none h (k, fine, fits) =
      (ap (λ t. t ++ listed list) h ∙ k, fine, fits)
  after_next-IsReport others list s (some (e, u)) (h, safe, fits) k = (
    ap (λ t. t ++ listed list) h,
    (λ v z. let same : u ≡ v = cc in subst (λ x. IsSafe fs x) same safe),
    fits,
  )

  dirstack_next-IsNext :
      (s : Dirstack) → IsSafe fs s → IsNext fs s.dirs s.prefix (dirstack_next fs s)
  unfolding dirstack_next
  dirstack_next-IsNext s safe = next_in-IsNext fs s.dirs s.prefix safe

  short_path :
      {A : Type 0} (path : List ℕ) (o : Option A) (a : A)
      → (fs.path_max ≤ length path → o ≡ none)
      → o ≡ some a
      → length path < fs.path_max
  short_path path o a long e = elim (Bool-cases (leb fs.path_max (length path))) [
    | inr l ↦ ground arith
    | inl l ↦
        let no_file = long (ground arith) in let z : none ≡ some a = sym no_file ∙ e in absurd cc
  ]

  next_path-IsReport : (paths : List (List ℕ)) → IsReport (listed paths) (next_path fs paths)
  unfolding next_path dirstack_open listed remaining
  next_path-IsReport [] = refl
  next_path-IsReport (cur ∷ list) =
      let rest = next_path-IsReport list in
      elim (Option-cases (fs.opendir cur)) [
        | inr (names, o) ↦
            let s : Dirstack = record { dirs = names ∷ []; prefix = strip_slash cur } in
            let safe : IsSafe fs s = record {
              plain = (fs.opendir_names cur names o, tt);
              depth = omega arith;
              fits = omega (
                arith,
                strip_slash_bound cur,
                short_path cur (fs.opendir cur) names (λ l. fs.opendir_long cur l) o,
              );
            } in
            rw (o, next_path, dirstack_open, from_path, sym (strip_slash-trimmed cur))
              (subst
                (λ xs.
                  IsReport (xs ++ listed list)
                    (after_next fs (next_path fs list) list (dirstack_next fs s)))
                (append-nil (walk fs 99 (strip_slash cur) names))
                (after_next-IsReport (next_path fs list) list s (dirstack_next fs s)
                  (dirstack_next-IsNext s safe) rest))
        | inl o ↦ elim (Option-cases (fs.lstat cur)) [
          | inl z ↦ rw (o, z, next_path, dirstack_open, from_path) rest
          | inr (st, z) ↦
              rw (o, z, next_path, dirstack_open, from_path)
                (
                  refl,
                  (λ s e. absurd cc),
                  short_path cur (fs.lstat cur) st (λ l. fs.lstat_long cur l) z,
                )
        ]
      ]

  -- A call of `recur_next` reports the first of the files that are pending, with a path that fits into
  -- a buffer of PATH_MAX bytes, and leaves the others; -1 says that there are none. The stack stays
  -- inside its arrays, if it was.
  pub recur_next-IsReport : (r : Recur) → IsFine r → IsReport (pending r) (recur_next fs r)
  unfolding recur_next
  recur_next-IsReport r fine = elim (Option-cases r.stack) [
    | inl e ↦ rw (e, recur_next, pending) (next_path-IsReport r.list)
    | inr (s, e) ↦
        rw (e, recur_next, pending)
          (after_next-IsReport (next_path fs r.list) r.list s (dirstack_next fs s)
            (dirstack_next-IsNext s (fine s e)) (next_path-IsReport r.list))
  ]

  abbrev pub and_next :
      (Recur → List (List ℕ × S)) → Option ((List ℕ × S) × Recur) → List (List ℕ × S)
  and_next next none = []
  and_next next (some (e, r)) = e ∷ next r

  -- The files for which the loop of a caller runs, which ends at -1 and is on fuel.
  unfoldable pub reports : ℕ → Recur → List (List ℕ × S)
  reports zero r = []
  reports (suc fuel) r = and_next (reports fuel) (recur_next fs r)

  and_next-pending :
      (xs : List (List ℕ × S)) (next : Recur → List (List ℕ × S)) (n : ℕ)
      (r : Option ((List ℕ × S) × Recur))
      → ((u : Recur) → IsFine u → length (pending u) < n → next u ≡ pending u)
      → length xs < suc n
      → IsReport xs r
      → and_next next r ≡ xs
  and_next-pending xs next n none h l e = sym e
  and_next-pending xs next n (some (x, u)) h l (e, fine, fits) =
      let l' : length (pending u) < n = omega (arith, ap length e) in
      ap (λ t. x ∷ t) (h u fine l') ∙ sym e

  reports-pending :
      (n : ℕ) (r : Recur) → IsFine r → length (pending r) < n → reports n r ≡ pending r
  unfolding reports
  reports-pending zero r fine l = absurd (omega arith)
  reports-pending (suc n) r fine l =
      and_next-pending (pending r) (reports n) n (recur_next fs r)
        (λ u ok k. reports-pending n u ok k) l (recur_next-IsReport r fine)

  -- A traversal reports the files below the paths that it is given and no other, in order: a directory
  -- comes before the files that it holds, which follow down to the depth of the stack. It ends: one
  -- call for each file, and one more, are enough. The files stay as they are meanwhile.
  pub recur_lists :
      (paths : List (List ℕ)) (r : Recur) (fuel : ℕ)
      → recur_open fs paths ≡ some r
      → length (listed paths) < fuel
      → reports fuel r ≡ listed paths
  unfolding recur_open
  recur_lists [] r fuel e l = absurd cc
  recur_lists (path ∷ paths) r fuel e l = elim (Bool-cases (leb fs.path_max (length path))) [
    | inl k ↦ let e' : none ≡ some r = rw (k, recur_open) at e in absurd cc
    | inr k ↦
        let e' : some (record { list = path ∷ paths; stack = none }) ≡ some r =
          rw (k, recur_open) at e in
        let same : record { list = path ∷ paths; stack = none } ≡ r = cc in
        subst (λ u. reports fuel u ≡ listed (path ∷ paths)) same
          (reports-pending fuel (record { list = path ∷ paths; stack = none }) (λ s z. absurd cc) l)
  ]
