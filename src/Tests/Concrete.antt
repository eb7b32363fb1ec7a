-- ===== src/Tests/Concrete.antt =====
-- A device and a database made of lists, and the data of the examples.
use magicrescue.Base.{
  ℕ, ◌+◌, ◌-◌, ◌<◌, min, ◌≡◌, ap, sym, ◌∙◌, Bool, true, false, ◌&&◌, Option, none, some, List, [],
  ◌∷◌, ◌==◌, if◌then◌else◌, length, get_or, arith, Bool-cases, inl, inr,
}
use magicrescue.Recipe.{Recipe, op_string, recipe_init}
use magicrescue.Scanner.{Scanner, scan_string}
use magicrescue.Memory.Slice.{bytes_from, length-bytes_from, get_or-bytes_from}
use magicrescue.Device.{Device}
use magicrescue.ScanBuf.{Scan}
use magicrescue.Dupemap.Checksum.{Checksum}
use magicrescue.Dupemap.Dbm.{Dbm}

pub bytes_from_count :
    (f : ℕ → ℕ) (p n : ℕ) (bs : List ℕ) → some (bytes_from f p n) ≡ some bs → length bs ≡ n
bytes_from_count f p n bs e =
    let h : bytes_from f p n ≡ bs = cc in ap length (sym h) ∙ length-bytes_from f p n

pub read_bytes_at :
    (f : ℕ → ℕ) (p n : ℕ) (bs : List ℕ) (i : ℕ)
    → some (bytes_from f p n) ≡ some bs
    → i < length bs
    → get_or bs i 0 ≡ f (p + i)
read_bytes_at f p n bs i e h =
    let same : bytes_from f p n ≡ bs = cc in
    ap (λ t. get_or t i 0) (sym same)
    ∙ get_or-bytes_from f p n i (omega (arith, bytes_from_count f p n bs e))

-- A file of `size` bytes, of which a position is all the state.
abbrev pub file_device : (ℕ → ℕ) → ℕ → Device ℕ
file_device f size = record {
  content = f;
  size = size;
  position = λ w. w;
  read = λ n w. (some (bytes_from f w (min n (size - w))), w + min n (size - w));
  seek = λ x w. some x;
  read_count = λ n w bs e. omega (arith, bytes_from_count f w (min n (size - w)) bs e);
  read_moves = λ n w bs e. omega (arith, bytes_from_count f w (min n (size - w)) bs e);
  read_bytes = λ n w bs i e h. read_bytes_at f w (min n (size - w)) bs i e h;
  read_inside = λ n w bs e h. omega (arith, bytes_from_count f w (min n (size - w)) bs e);
  seek_position = λ x w w' e. cc;
}

-- The file is `xab?ab`, where `ab` at 1 is no match for the recipe and the one at 4 is.
abbrev pub file : ℕ → ℕ
file i = get_or (b'x' ∷ b'a' ∷ b'b' ∷ b'?' ∷ b'a' ∷ b'b' ∷ b'!' ∷ b'.' ∷ b'.' ∷ b'.' ∷ []) i 0

abbrev pub the_device : Device ℕ
the_device = file_device file 10

abbrev pub the_recipe : Recipe
the_recipe = record recipe_init {
  ops = record { func = op_string (b'!' ∷ []); offset = 2 } ∷ [];
  command = some [];
}

abbrev pub the_scanner : Scanner
the_scanner = record {
  func = scan_string (b'a' ∷ b'b' ∷ []) b'b' 1;
  offset = 0;
  extra_len = 1;
  recipes = the_recipe ∷ [];
}

-- A program that takes two bytes from where it is called on.
abbrev pub two_bytes : Recipe → ℕ → ℕ → Option ℕ × ℕ
two_bytes r x w = (some 2, x + 2)

abbrev pub start : Scan ℕ
start = record {
  ranges = record { begin = none; end = 0 } ∷ [];
  changed = false;
  world = 0;
  found = [];
}

-- A database is the list of the keys that are stored.
checksum_eq : Checksum → Checksum → Bool
checksum_eq a b = a.crc == b.crc && a.filesize == b.filesize

checksum_eq_refl : (a : Checksum) → checksum_eq a a ≡ true
unfolding checksum_eq
checksum_eq_refl a = ground arith

checksum_eq_sound : (a b : Checksum) → checksum_eq a b ≡ true → a ≡ b
unfolding checksum_eq
checksum_eq_sound a b e = ground arith

unfoldable pub find_key : Checksum → List Checksum → Option (List ℕ)
unfolding checksum_eq
find_key k [] = none
find_key k (x ∷ xs) = let rest = find_key k xs in if checksum_eq x k then some [] else rest

pub find_key-stored : (k : Checksum) (w : List Checksum) → ¬ (find_key k (k ∷ w) ≡ none)
unfolding find_key
find_key-stored k w e = ground (arith, checksum_eq_refl k, e)

pub find_key_keeps :
    (k k' : Checksum) (w : List Checksum) → find_key k (k' ∷ w) ≡ none → find_key k w ≡ none
unfolding find_key
find_key_keeps k k' w e = elim (Bool-cases (checksum_eq k' k)) [
  | inl same ↦ absurd (ground (arith, rw (same, find_key) at e))
  | inr other ↦ rw (other, find_key) at e
]

pub find_key_only :
    (k k' : Checksum) (x : List ℕ) (w : List Checksum)
    → find_key k w ≡ none
    → find_key k (k' ∷ w) ≡ some x
    → k' ≡ k
unfolding find_key
find_key_only k k' x w e h = elim (Bool-cases (checksum_eq k' k)) [
  | inl same ↦ checksum_eq_sound k' k same
  | inr other ↦ absurd (ground (arith, e, rw (other, find_key) at h))
]

abbrev pub list_dbm : Dbm (List Checksum)
list_dbm = record {
  fetch = find_key;
  store = λ k v w. k ∷ w;
  fetch-store = λ k v w e. find_key-stored k w e;
  store_keeps = λ k k' v w e. find_key_keeps k k' w e;
  store_only = λ k k' v x w e h. find_key_only k k' x w e h;
}
