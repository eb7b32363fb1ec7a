-- ===== src/Dupemap/Mode/Table.antt =====
-- The table of modes in `parse_mode` of src/dupemap.c.
use magicrescue.Base.{
  ℕ, ◌+◌, bit_or, ◌≡◌, refl, ap, ◌∙◌, Bool, true, false, ◌||◌, List, [], ◌∷◌, if◌then◌else◌,
}
use magicrescue.Parse.Scanf.{bytes_eq, codes}
use magicrescue.Dupemap.Mode.{
  op2mode, tokens, token_op, tokens_op, mode_of, parse_mode, op_hasdb, mode_readdb, mode_writedb,
  mode_delete, mode_report, mode_tempdb,
}

-- Is `name` one of the tokens?
unfoldable pub asks : List ℕ → List (List ℕ) → Bool
asks name [] = false
asks name (tok ∷ toks) = bytes_eq tok name || asks name toks

abbrev flags : Bool → Bool → Bool → ℕ
flags scan report delete =
    (if scan then 1 else 0) + (if report then 2 else 0) + (if delete then 4 else 0)

-- The mode, by what is asked for.
abbrev pub action_mode : Bool → Bool → ℕ
action_mode report delete =
    (if report then mode_report else 0) + (if delete then mode_delete else 0)

abbrev pub mode_for : Bool → Bool → Bool → Bool → ℕ
mode_for true scan true delete =
    if scan
    then (if delete then 0 else mode_writedb + mode_report)
    else mode_readdb + action_mode true delete
mode_for true scan false delete =
    if scan
    then (if delete then 0 else mode_writedb)
    else (if delete then mode_readdb + mode_delete else 0)
mode_for false scan report delete =
    if report || delete then mode_tempdb + action_mode report delete else 0

or_false : (x : Bool) → (x || false) ≡ x
or_false true = refl
or_false false = refl

abbrev Four : (Bool → Bool → Bool → Bool → Type 0) → Bool → Bool → Type 0
Four P x y = P x y true true × P x y true false × P x y false true × P x y false false

pick :
    (Q : Bool → Bool → Type 0)
    → Q true true × Q true false × Q false true × Q false false
    → (z w : Bool) → Q z w
pick Q k true true = k.0
pick Q k true false = k.1
pick Q k false true = k.2
pick Q k false false = k.3

all_bools :
    (P : Bool → Bool → Bool → Bool → Type 0)
    → Four P true true × Four P true false × Four P false true × Four P false false
    → (x y z w : Bool) → P x y z w
all_bools P h x y z w = pick (P x y) (pick (Four P) h x y) z w

set_scan :
    (x s r d : Bool) → (if x then bit_or (flags s r d) 1 else flags s r d) ≡ flags (s || x) r d
set_scan x s r d =
    all_bools (λ x s r d. (if x then bit_or (flags s r d) 1 else flags s r d) ≡ flags (s || x) r d)
      (
        (refl, refl, refl, refl),
        (refl, refl, refl, refl),
        (refl, refl, refl, refl),
        (refl, refl, refl, refl),
      )
      x s r d

set_report :
    (x s r d : Bool) → (if x then bit_or (flags s r d) 2 else flags s r d) ≡ flags s (r || x) d
set_report x s r d =
    all_bools (λ x s r d. (if x then bit_or (flags s r d) 2 else flags s r d) ≡ flags s (r || x) d)
      (
        (refl, refl, refl, refl),
        (refl, refl, refl, refl),
        (refl, refl, refl, refl),
        (refl, refl, refl, refl),
      )
      x s r d

set_delete :
    (x s r d : Bool) → (if x then bit_or (flags s r d) 4 else flags s r d) ≡ flags s r (d || x)
set_delete x s r d =
    all_bools (λ x s r d. (if x then bit_or (flags s r d) 4 else flags s r d) ≡ flags s r (d || x))
      (
        (refl, refl, refl, refl),
        (refl, refl, refl, refl),
        (refl, refl, refl, refl),
        (refl, refl, refl, refl),
      )
      x s r d

or_assoc : (x y z : Bool) → ((x || y) || z) ≡ (x || (y || z))
or_assoc true y z = refl
or_assoc false y z = refl

tokens_op-flags :
    (toks : List (List ℕ)) (s r d : Bool)
    → tokens_op toks (flags s r d)
      ≡ flags
          (s || asks (codes "scan") toks)
          (r || asks (codes "report") toks)
          (d || asks (codes "delete") toks)
unfolding tokens_op token_op asks
tokens_op-flags [] s r d = rw (or_false s, or_false r, or_false d) refl
tokens_op-flags (tok ∷ toks) s r d =
    ap (tokens_op toks) (
      ap (λ (t : ℕ). if bytes_eq tok (codes "delete") then bit_or t 4 else t)
        (ap (λ (t : ℕ). if bytes_eq tok (codes "report") then bit_or t 2 else t)
            (set_scan (bytes_eq tok (codes "scan")) s r d)
          ∙ set_report (bytes_eq tok (codes "report")) (s || bytes_eq tok (codes "scan")) r d)
      ∙ set_delete (bytes_eq tok (codes "delete")) (s || bytes_eq tok (codes "scan"))
          (r || bytes_eq tok (codes "report")) d)
    ∙ tokens_op-flags toks (s || bytes_eq tok (codes "scan")) (r || bytes_eq tok (codes "report"))
        (d || bytes_eq tok (codes "delete"))
    ∙ rw
        (
          or_assoc s (bytes_eq tok (codes "scan")) (asks (codes "scan") toks),
          or_assoc r (bytes_eq tok (codes "report")) (asks (codes "report") toks),
          or_assoc d (bytes_eq tok (codes "delete")) (asks (codes "delete") toks),
        )
        refl

mode_of-mode_for :
    (h s r d : Bool)
    → mode_of op2mode (if h then bit_or (flags s r d) op_hasdb else flags s r d) ≡ mode_for h s r d
unfolding mode_of
mode_of-mode_for h s r d =
    all_bools
      (λ h s r d.
        mode_of op2mode (if h then bit_or (flags s r d) op_hasdb else flags s r d)
        ≡ mode_for h s r d)
      (
        (refl, refl, refl, refl),
        (refl, refl, refl, refl),
        (refl, refl, refl, refl),
        (refl, refl, refl, refl),
      )
      h s r d

-- The mode depends on which of the three names the argument asks for, as often and in whatever order
-- it does, and on whether there is a database.
pub parse_mode-mode_for :
    (str : List ℕ) (hasdb : Bool)
    → parse_mode str hasdb
      ≡ mode_for hasdb
          (asks (codes "scan") (tokens [] str))
          (asks (codes "report") (tokens [] str))
          (asks (codes "delete") (tokens [] str))
unfolding parse_mode
parse_mode-mode_for str hasdb =
    let toks = tokens [] str in
    ap (λ (t : ℕ). mode_of op2mode (if hasdb then bit_or t op_hasdb else t))
      (tokens_op-flags toks false false false)
    ∙ mode_of-mode_for hasdb (asks (codes "scan") toks) (asks (codes "report") toks)
        (asks (codes "delete") toks)
