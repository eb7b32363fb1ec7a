-- ===== src/Parse/Directives.antt =====
-- The lines of a recipe, in `parse_recipe` of src/magicrescue.c, and the overlap.
use mathlib.Core.Path.{subst}
use magicrescue.Base.{
  ℕ, zero, suc, ◌+◌, ◌≤◌, ◌<◌, ◌≡◌, refl, sym, true, false, some, List, [], ◌∷◌, ◌++◌, ltb, ◌==◌,
  if◌then◌else◌, length, take, ◌-◌, arith, All, All-append, Option-cases, Bool-cases, inl, inr,
}
use magicrescue.Base.Int.{pos, negsuc}
use magicrescue.Util.Escape.{string_init}
use magicrescue.Recipe.{Recipe, OpFunc}
use magicrescue.Recipe.Word.{op_len}
use magicrescue.Scanner.Magic.{IsReady, scanner_string_init-IsMagic}
use magicrescue.ScanDisk.Reports.{scan_len}
use magicrescue.Parse.{
  ok, failed, Parse, make_scanner, make_int32, make_operation, grow_overlap, add_operation,
  parse_directive, parse_setting, parse_other, parse_line, parse_lines, is_text,
}
use magicrescue.Parse.Scanf.{bytes_eq, codes, scan_directive}
use magicrescue.Parse.Fits.{
  OpFits, RecipeFits, ScannerFits, MaybeFits, MaybeFits-mono, ScannerFits-mono, RecipeFits-mono,
  ParseFits, Ensures, Ensures-bind,
}

-- The new scanner and its length, if that is not 0.
make_scanner-ScannerFits :
    (offset : ℕ) (s : List ℕ)
    → 0 < (make_scanner offset s).1
    → ScannerFits ((make_scanner offset s).1 + offset) (make_scanner offset s).0
unfolding make_scanner
make_scanner-ScannerFits offset [] h = absurd (omega arith)
make_scanner-ScannerFits offset (c ∷ []) h = record {
  ready = tt;
  reach = omega arith;
  recipes_fit = tt;
}
make_scanner-ScannerFits offset (c ∷ d ∷ s) h =
    let (x, off, e, m) = scanner_string_init-IsMagic c (d ∷ s) in
    record {
      ready = subst IsReady (sym e) m.0;
      reach = subst (λ f. offset + scan_len f ≤ length (c ∷ d ∷ s) + offset) (sym e) (omega arith);
      recipes_fit = tt;
    }

make_int32-len : (param : List ℕ) → Ensures (λ f. op_len f ≡ 4) (make_int32 param)
unfolding make_int32
make_int32-len param = ground arith

make_operation-len :
    (opname param : List ℕ)
    → Ensures (λ (p : OpFunc × ℕ). p.1 ≡ op_len p.0) (make_operation opname param)
unfolding make_operation
make_operation-len opname param = elim (Bool-cases (is_text opname)) [
  | inl text ↦ rw (text, make_operation, Ensures) refl
  | inr other ↦ elim (Bool-cases (bytes_eq opname (codes "int32"))) [
    | inl int32 ↦
        rw (other, int32, make_operation, Ensures)
          (Ensures-bind (λ f. op_len f ≡ 4) (λ p. p.1 ≡ op_len p.0) (make_int32 param)
            (λ f. ok (f, 4)) (make_int32-len param) (λ f e. sym e))
    | inr unknown ↦ rw (other, unknown, make_operation, Ensures) tt
  ]
]

-- The overlap grows to `offset + len`, and what holds of a smaller overlap goes on to hold.
grow_overlap-ParseFits :
    (low offset len : ℕ) (st : Parse)
    → low ≤ st.overlap
    → (0 < len
        → (overlap : ℕ) → st.overlap ≤ overlap
        → len + offset ≤ overlap
        → MaybeFits overlap st.scanner × RecipeFits overlap st.recipe)
    → Ensures (ParseFits low) (grow_overlap st offset len)
unfolding grow_overlap
grow_overlap-ParseFits low offset zero st h k = tt
grow_overlap-ParseFits low offset (suc n) st h k =
    let nz : (suc n == 0) ≡ false = ground arith in
    elim (Bool-cases (ltb st.overlap (suc n + offset))) [
      | inl more ↦
          rw (nz, more, grow_overlap, Ensures)
            (let f = k (omega arith) (suc n + offset) (ground arith) (omega arith) in
              record { grows = ground arith; scanner_fits = f.0; recipe_fits = f.1 })
      | inr enough ↦
          rw (nz, enough, grow_overlap, Ensures)
            (let f = k (omega arith) st.overlap (omega arith) (ground arith) in
              record { grows = h; scanner_fits = f.0; recipe_fits = f.1 })
    ]

-- The scanner may be one that does not fit, as the one of the empty string, if the line fails then.
add_operation-ParseFits :
    (low offset : ℕ) (st : Parse) (opname param : List ℕ)
    → low ≤ st.overlap
    → RecipeFits st.overlap st.recipe
    → MaybeFits st.overlap st.scanner
    → Ensures (ParseFits low) (add_operation st offset opname param)
unfolding add_operation
add_operation-ParseFits low offset st opname param h rf mf =
    Ensures-bind (λ (p : OpFunc × ℕ). p.1 ≡ op_len p.0) (ParseFits low)
      (make_operation opname param)
      (λ op.
        grow_overlap
          (record st {
            recipe = record st.recipe {
              ops = st.recipe.ops ++ record { func = op.0; offset = offset } ∷ [];
            };
          })
          offset op.1)
      (make_operation-len opname param)
      (λ op e.
        grow_overlap-ParseFits low offset op.1
          (record st {
            recipe = record st.recipe {
              ops = st.recipe.ops ++ record { func = op.0; offset = offset } ∷ [];
            };
          })
          h
          (λ pos overlap a b. (
            MaybeFits-mono st.overlap overlap st.scanner a mf,
            All-append (OpFits overlap) st.recipe.ops (record { func = op.0; offset = offset } ∷ [])
                (RecipeFits-mono st.overlap overlap st.recipe a rf) (omega arith, tt),
          )))

-- An empty string fails, whatever the scanner.
add_operation-empty :
    (offset : ℕ) (st : Parse) (opname param : List ℕ)
    → is_text opname ≡ true
    → string_init param ≡ []
    → add_operation st offset opname param ≡ failed
unfolding add_operation make_operation grow_overlap
add_operation-empty offset st opname param text e = rw (text, e, length)

-- The first text operation of a recipe without a scanner.
new_scanner-ParseFits :
    (low offset : ℕ) (st : Parse) (opname param s : List ℕ)
    → is_text opname ≡ true
    → string_init param ≡ s
    → low ≤ st.overlap
    → RecipeFits st.overlap st.recipe
    → Ensures (ParseFits low) (
        let (sc, len) = make_scanner offset s in
        if len == 0
        then add_operation (record st { scanner = some sc }) offset opname param
        else grow_overlap (record st { scanner = some sc }) offset len)
unfolding make_scanner
new_scanner-ParseFits low offset st opname param [] text e h rf =
    rw
      (add_operation-empty offset (record st { scanner = some (make_scanner offset []).0 }) opname
        param text e)
      tt
new_scanner-ParseFits low offset st opname param (c ∷ []) text e h rf =
    (grow_overlap-ParseFits low offset (length (c ∷ []))
      (record st { scanner = some (make_scanner offset (c ∷ [])).0 }) h
      (λ more overlap a b. (
        ScannerFits-mono (length (c ∷ []) + offset) overlap (make_scanner offset (c ∷ [])).0 b
            (make_scanner-ScannerFits offset (c ∷ []) more),
        RecipeFits-mono st.overlap overlap st.recipe a rf,
      )))
new_scanner-ParseFits low offset st opname param (c ∷ d ∷ s) text e h rf =
    let nz : (length (c ∷ d ∷ s) == 0) ≡ false = ground arith in
    rw (nz) (
      grow_overlap-ParseFits low offset (length (c ∷ d ∷ s))
        (record st { scanner = some (make_scanner offset (c ∷ d ∷ s)).0 }) h
        (λ more overlap a b. (
          ScannerFits-mono (length (c ∷ d ∷ s) + offset) overlap (make_scanner offset (c ∷ d ∷ s)).0
              b (make_scanner-ScannerFits offset (c ∷ d ∷ s) more),
          RecipeFits-mono st.overlap overlap st.recipe a rf,
        )))

parse_directive-ParseFits :
    (low offset : ℕ) (st : Parse) (opname param : List ℕ)
    → ParseFits low st
    → Ensures (ParseFits low) (parse_directive st offset opname param)
unfolding parse_directive
parse_directive-ParseFits low offset st opname param f = elim (Option-cases st.scanner) [
  | inr (sc, e) ↦
      rw (e, parse_directive)
        (add_operation-ParseFits low offset st opname param f.grows f.recipe_fits f.scanner_fits)
  | inl e ↦ elim (Bool-cases (is_text opname)) [
    | inl text ↦
        rw (e, text, parse_directive)
          (new_scanner-ParseFits low offset st opname param (string_init param) text refl f.grows
            f.recipe_fits)
    | inr other ↦
        rw (e, other, parse_directive)
          (add_operation-ParseFits low offset st opname param f.grows f.recipe_fits f.scanner_fits)
  ]
]

-- A setting leaves the operations of the recipe as they are.
parse_setting_ops :
    (r : Recipe) (buf : List ℕ) → Ensures (λ r'. r'.ops ≡ r.ops) (parse_setting r buf)
unfolding parse_setting
parse_setting_ops r buf = ground arith

parse_other-ParseFits :
    (low : ℕ) (st : Parse) (buf : List ℕ)
    → ParseFits low st
    → Ensures (ParseFits low) (parse_other st buf)
unfolding parse_other
parse_other-ParseFits low st [] f = f
parse_other-ParseFits low st (c ∷ buf) f = elim (Bool-cases (c == b'#')) [
  | inl comment ↦ rw (comment, parse_other, Ensures) f
  | inr setting ↦
      rw (setting, parse_other, Ensures)
        (Ensures-bind (λ r. r.ops ≡ st.recipe.ops) (ParseFits low)
          (parse_setting st.recipe (c ∷ buf)) (λ r. ok (record st { recipe = r }))
          (parse_setting_ops st.recipe (c ∷ buf))
          (λ r e. record {
            grows = f.grows;
            scanner_fits = f.scanner_fits;
            recipe_fits = subst (All (OpFits st.overlap)) (sym e) f.recipe_fits;
          }))
]

parse_line-ParseFits :
    (low : ℕ) (st : Parse) (line : List ℕ)
    → ParseFits low st
    → Ensures (ParseFits low) (parse_line st line)
unfolding parse_line
parse_line-ParseFits low st line f =
    elim (Option-cases (scan_directive (take (length line - 1) line))) [
      | inl e ↦ rw (e, parse_line) (parse_other-ParseFits low st (take (length line - 1) line) f)
      | inr ((negsuc n, opname, param), e) ↦ rw (e, parse_line, Ensures) tt
      | inr ((pos offset, opname, param), e) ↦
          rw (e, parse_line) (parse_directive-ParseFits low offset st opname param f)
    ]

pub parse_lines-ParseFits :
    (low : ℕ) (st : Parse) (lines : List (List ℕ))
    → ParseFits low st
    → Ensures (ParseFits low) (parse_lines st lines)
unfolding parse_lines
parse_lines-ParseFits low st [] f = f
parse_lines-ParseFits low st (line ∷ lines) f =
    Ensures-bind (ParseFits low) (ParseFits low) (parse_line st line) (λ st'. parse_lines st' lines)
      (parse_line-ParseFits low st line f) (λ st' f'. parse_lines-ParseFits low st' lines f')
