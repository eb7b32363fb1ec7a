-- ===== src/Extract/Names.antt =====
-- The names that `compose_name` of src/extract.c chooses.
use mathlib.Core.Path.{subst}
use magicrescue.Base.{
  ◌==◌, ==_iff, ℕ, zero, suc, ◌+◌, ◌≤◌, ◌<◌, ◌≡◌, ◌≢◌, ◌⊎◌, ap, sym, Bool, true, false, List, leb,
  length, arith, Bool-cases, inl, inr,
}
use magicrescue.Extract.{System, Naming, composed, no_name, candidate, compose_name, path_max}

taken_from :
    (test : ℕ → Bool) (i n : ℕ)
    → test i ≡ true
    → ((k : ℕ) → i + 1 ≤ k → k < n → test k ≡ true)
    → (k : ℕ) → i ≤ k
    → k < n
    → test k ≡ true
taken_from test i n h rest k lo hi = elim (Bool-cases (i == k)) [
  | inl e ↦ subst (λ t. test t ≡ true) ((==_iff i k).0 e) h
  | inr e ↦ rest k (ground arith) hi
]

stop_later :
    (test : ℕ → Bool) (len : ℕ → ℕ) (i n : ℕ)
    → test i ≡ true
    → leb path_max (len i) ≡ false
    → (test n ≡ false) ⊎ (path_max ≤ len n)
    → i ≤ n
    → i + 1 ≤ n
stop_later test len i n old short h lo = elim (Bool-cases (i == n)) [
  | inr e ↦ ground arith
  | inl e ↦
      let same = (==_iff i n).0 e in
      elim h [
        | inl new ↦ absurd (let z = ap test same in cc)
        | inr long ↦ absurd (let z = ap len same in ground arith)
      ]
]

module _ {W : Type 0} (sys : System W) (g : Naming) where
  -- The place of the name among the candidates from the `i`-th on.
  abbrev pub IsFirstFree : ℕ → List ℕ → ℕ → W → List ℕ → Type 0
  IsFirstFree offset extension i w name =
      (n : ℕ) × (i ≤ n)
      × (name ≡ candidate g offset extension n)
      × (sys.lstat name w ≡ false)
      × (length name < path_max)
      × ((k : ℕ) → i ≤ k → k < n → sys.lstat (candidate g offset extension k) w ≡ true)

  -- A name that `compose_name` returns is that of no file, fits its buffer, and is the first such
  -- one: all names with a smaller number exist.
  pub compose_name-IsFirstFree :
      (fuel offset : ℕ) (extension : List ℕ) (i : ℕ) (w : W) (name : List ℕ)
      → compose_name sys g fuel offset extension i w ≡ composed name
      → IsFirstFree offset extension i w name
  unfolding compose_name
  compose_name-IsFirstFree zero offset extension i w name e = absurd (cc)
  compose_name-IsFirstFree (suc fuel) offset extension i w name e =
      let it = candidate g offset extension i in
      elim (Bool-cases (leb path_max (length it))) [
        | inl long ↦ absurd (let z = rw (long, compose_name) at e in cc)
        | inr short ↦ elim (Bool-cases (sys.lstat it w)) [
          | inl old ↦
              let z = rw (short, old, compose_name) at e in
              let (n, le, same, free, fits, taken) =
                compose_name-IsFirstFree fuel offset extension (i + 1) w name z in
              (
                n,
                omega arith,
                same,
                free,
                fits,
                λ k lo hi.
                    taken_from (λ k. sys.lstat (candidate g offset extension k) w) i n old taken k
                      lo hi,
              )
          | inr new ↦
              let same : it ≡ name = (let z = rw (short, new, compose_name) at e in cc) in
              (
                i,
                omega arith,
                sym same,
                rw (sym same) new,
                rw (sym same) (ground arith),
                λ k lo hi. absurd (omega arith),
              )
        ]
      ]

  -- The loop of `compose_name` ends: a number of tries is enough if it reaches a name that is free, or
  -- one that is too long.
  pub compose_name-ends :
      (fuel offset : ℕ) (extension : List ℕ) (i n : ℕ) (w : W)
      → i ≤ n
      → n < i + fuel
      → (sys.lstat (candidate g offset extension n) w ≡ false)
        ⊎ (path_max ≤ length (candidate g offset extension n))
      → compose_name sys g fuel offset extension i w ≢ no_name
  unfolding compose_name
  compose_name-ends zero offset extension i n w lo hi h e = absurd (omega arith)
  compose_name-ends (suc fuel) offset extension i n w lo hi h e =
      let it = candidate g offset extension i in
      elim (Bool-cases (leb path_max (length it))) [
        | inl long ↦ let z = rw (long, compose_name) at e in cc
        | inr short ↦ elim (Bool-cases (sys.lstat it w)) [
          | inr new ↦ let z = rw (short, new, compose_name) at e in cc
          | inl old ↦
              compose_name-ends fuel offset extension (i + 1) n w
                (stop_later (λ k. sys.lstat (candidate g offset extension k) w)
                  (λ k. length (candidate g offset extension k)) i n old short h lo)
                (omega arith) h (rw (short, old, compose_name) at e)
        ]
      ]
