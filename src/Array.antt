-- ===== src/Array.antt =====
-- src/array.c and src/array.h: an array of elements of one size, in a block of memory that grows. An
-- address in the block is its offset, and an element is the list of its bytes.
pub mod Chunks
pub mod Elements
use magicrescue.Base.{
  ℕ, zero, suc, ◌+◌, ◌-◌, ◌*◌, ◌≤◌, ◌≡◌, Bool, true, false, Option, none, some, List, [], ◌∷◌, ◌++◌,
  ltb, if◌then◌else◌, length, take, drop,
}

-- `realloc`, as C describes it: the old bytes stay, and the new ones are whatever they are. It does not
-- fail, as the source has no test of its result.
pub record Allocator : Type 0 where
  pub realloc : List ℕ → ℕ → List ℕ
  pub realloc_size : (old : List ℕ) (n : ℕ) → length (realloc old n) ≡ n
  pub realloc_keeps :
      (old : List ℕ) (n : ℕ) → length old ≤ n → take (length old) (realloc old n) ≡ old

-- `struct array`; a null pointer is an empty block.
pub record Array : Type 0 where
  pub el_len : ℕ
  pub elements : ℕ
  pub block : List ℕ

unfoldable pub array_init : ℕ → Array
array_init el_len = record { el_len = el_len; elements = 0; block = [] }

unfoldable pub array_el : Array → ℕ → ℕ
array_el a index = index * a.el_len

unfoldable pub array_count : Array → ℕ
array_count a = a.elements

-- The bytes of the element at an address.
abbrev pub load : Array → ℕ → List ℕ
load a p = take a.el_len (drop p a.block)

-- `memcpy` of an element to an address.
abbrev pub store : List ℕ → ℕ → List ℕ → List ℕ
store block p el = take p block ++ el ++ drop (p + length el) block

-- `none` is a null pointer; the element is where the returned address points.
unfoldable pub array_add : Allocator → Array → Option (List ℕ) → Array × ℕ
unfolding array_el
array_add alloc a el =
    let n = suc a.elements in
    let block = alloc.realloc a.block (n * a.el_len) in
    let a' = record a {
      elements = n;
      block = elim el [ none ↦ block | some x ↦ store block ((n - 1) * a.el_len) x ];
    } in
    (a', array_el a' (n - 1))

-- The addresses that `array_foreach` goes through, on fuel.
unfoldable pub foreach_from : ℕ → Array → ℕ → List ℕ
foreach_from zero a p = []
foreach_from (suc fuel) a p =
    let rest = foreach_from fuel a (p + a.el_len) in
    if ltb p (a.elements * a.el_len) then p ∷ rest else []

-- An element has one byte at least, so one step for each is enough.
unfoldable pub array_foreach : Array → List ℕ
unfolding foreach_from
array_foreach a = foreach_from a.elements a 0
