-- ===== src/Array/Elements.antt =====
-- The elements of an array of src/array.c as a list.
use mathlib.Core.List.{append-nil}
use native.Mathlib.Nat.{suc-mul}
use magicrescue.Base.{
  ℕ, zero, suc, ◌+◌, ◌-◌, ◌*◌, ◌<◌, ◌≡◌, refl, sym, ap, ◌∙◌, Option, none, some, List, [], ◌∷◌,
  ◌++◌, map, get_elem?, length, take, drop, length-drop, length-append, take-append-drop, lt→ltb,
  arith,
}
use magicrescue.Array.{
  Allocator, Array, array_el, array_count, load, array_add, foreach_from, array_foreach,
}
use magicrescue.Array.Chunks.{
  drop_append, drop-drop, take-length, drop_all, chunks, chunks-append, get_elem?-chunks,
}

-- Elements have a size, and the block is as long as they are.
pub record IsArray (a : Array) : Type 0 where
  pub sized : 0 < a.el_len
  pub whole : length a.block ≡ a.elements * a.el_len

-- The elements that `array_foreach` meets.
abbrev pub elements_of : Array → List (List ℕ)
elements_of a = map (load a) (array_foreach a)

foreach_from-chunks :
    (n : ℕ) (a : Array) (p : ℕ)
    → 0 < a.el_len
    → p + n * a.el_len ≡ a.elements * a.el_len
    → map (load a) (foreach_from n a p) ≡ chunks a.el_len n (drop p a.block)
unfolding foreach_from
foreach_from-chunks zero a p pos h = refl
foreach_from-chunks (suc n) a p pos h =
    let m = suc-mul n a.el_len in
    rw (lt→ltb p (a.elements * a.el_len) (omega arith)) (
      ap (λ t. load a p ∷ t)
        (foreach_from-chunks n a (p + a.el_len) pos (omega arith)
          ∙ ap (chunks a.el_len n) (sym (drop-drop a.block p a.el_len))))

elements-chunks : (a : Array) → IsArray a → elements_of a ≡ chunks a.el_len a.elements a.block
unfolding array_foreach
elements-chunks a ok = foreach_from-chunks a.elements a 0 ok.sized (omega arith)

-- `array_el` gives the address of the element with the index that it is given, among those that
-- `array_foreach` goes through, for every index below `array_count`.
pub array_el-elements :
    (a : Array) (i : ℕ)
    → IsArray a
    → i < array_count a
    → get_elem? (elements_of a) i ≡ some (load a (array_el a i))
unfolding array_el array_count
array_el-elements a i ok h =
    rw (elements-chunks a ok) (get_elem?-chunks a.el_len a.elements a.block i h)

-- What is stored is as long as an element.
abbrev pub IsElement : Array → Option (List ℕ) → Type 0
IsElement a none = Unit
IsElement a (some x) = length x ≡ a.el_len

abbrev pub Holds : Option (List ℕ) → List ℕ → Type 0
Holds none y = Unit
Holds (some x) y = y ≡ x

module _ (alloc : Allocator) (a : Array) (ok : IsArray a) where
  abbrev added : Option (List ℕ) → List ℕ
  added none = drop (a.elements * a.el_len) (alloc.realloc a.block (suc a.elements * a.el_len))
  added (some x) = x

  realloc_front :
      take (a.elements * a.el_len) (alloc.realloc a.block (suc a.elements * a.el_len)) ≡ a.block
  realloc_front =
      let m = suc-mul a.elements a.el_len in
      let w = ok.whole in
      ap (λ n. take n (alloc.realloc a.block (suc a.elements * a.el_len))) (sym w)
      ∙ alloc.realloc_keeps a.block (suc a.elements * a.el_len) (omega arith)

  added_block :
      (el : Option (List ℕ)) → IsElement a el → (array_add alloc a el).0.block ≡ a.block ++ added el
  unfolding array_add
  added_block none h =
      sym (
        take-append-drop (a.elements * a.el_len)
          (alloc.realloc a.block (suc a.elements * a.el_len)))
      ∙ ap (λ t. t ++ added none) realloc_front
  added_block (some x) h =
      let m = suc-mul a.elements a.el_len in
      let size = alloc.realloc_size a.block (suc a.elements * a.el_len) in
      let e : suc a.elements - 1 ≡ a.elements = omega arith in
      rw
        (
          e,
          realloc_front,
          drop_all (alloc.realloc a.block (suc a.elements * a.el_len))
              (a.elements * a.el_len + length x) (omega arith),
        )
        (append-nil (a.block ++ x))

  added_size : (el : Option (List ℕ)) → IsElement a el → length (added el) ≡ a.el_len
  added_size none h =
      let m = suc-mul a.elements a.el_len in
      let size = alloc.realloc_size a.block (suc a.elements * a.el_len) in
      omega (
        arith,
        length-drop (a.elements * a.el_len) (alloc.realloc a.block (suc a.elements * a.el_len)),
      )
  added_size (some x) h = h

  added_IsArray : (el : Option (List ℕ)) → IsElement a el → IsArray (array_add alloc a el).0
  unfolding array_add
  added_IsArray el h =
      let m = suc-mul a.elements a.el_len in
      let w = ok.whole in
      record {
        sized = ok.sized;
        whole =
            ap length (added_block el h)
            ∙ length-append a.block (added el)
            ∙ omega (arith, added_size el h);
      }

  added_elements :
      (el : Option (List ℕ))
      → IsElement a el
      → elements_of (array_add alloc a el).0 ≡ elements_of a ++ (added el ∷ [])
  unfolding array_add
  added_elements el h =
      elements-chunks (array_add alloc a el).0 (added_IsArray el h)
      ∙ ap (chunks a.el_len (suc a.elements)) (added_block el h)
      ∙ chunks-append a.el_len a.elements a.block (added el) ok.whole (added_size el h)
      ∙ ap (λ t. t ++ (added el ∷ [])) (sym (elements-chunks a ok))

  added_at :
      (el : Option (List ℕ))
      → IsElement a el
      → load (array_add alloc a el).0 (array_add alloc a el).1 ≡ added el
  unfolding array_add array_el
  added_at el h =
      let e : suc a.elements - 1 ≡ a.elements = omega arith in
      let w = ok.whole in
      ap (λ n. take a.el_len (drop (n * a.el_len) (array_add alloc a el).0.block)) e
      ∙ ap (λ t. take a.el_len (drop (a.elements * a.el_len) t)) (added_block el h)
      ∙ ap (take a.el_len) (
          drop_append a.block (added el) (a.elements * a.el_len) (omega arith)
          ∙ ap (λ t. t ++ added el) (drop_all a.block (a.elements * a.el_len) (omega arith)))
      ∙ ap (λ n. take n (added el)) (sym (added_size el h))
      ∙ take-length (added el)

  -- The array is a list to which `array_add` appends one element: the elements from before stay what
  -- they are, also when the block moves, and the address that is returned is that of the new element,
  -- which is the given one if one is given. The array is well formed afterwards, and was before.
  pub array_add_appends :
      (el : Option (List ℕ))
      → IsElement a el
      → IsArray (array_add alloc a el).0
        × (array_count (array_add alloc a el).0 ≡ array_count a + 1)
        × (elements_of (array_add alloc a el).0
            ≡ elements_of a ++ (load (array_add alloc a el).0 (array_add alloc a el).1 ∷ []))
        × Holds el (load (array_add alloc a el).0 (array_add alloc a el).1)
  unfolding array_count array_add
  array_add_appends el h = (
    added_IsArray el h,
    omega arith,
    added_elements el h ∙ ap (λ y. elements_of a ++ (y ∷ [])) (sym (added_at el h)),
    holds el h,
  )
    where
      holds :
          (el : Option (List ℕ))
          → IsElement a el
          → Holds el (load (array_add alloc a el).0 (array_add alloc a el).1)
      holds none h = tt
      holds (some x) h = added_at (some x) h
