-- ===== src/Dupemap/Dbm.antt =====
-- The key-value store of src/dupemap.c: what is stored can be fetched, until then it cannot, and a store
-- does not touch other keys. ndbm(3) describes it so, but doc/dupemap.pod warns that an implementation
-- need not handle collisions of its hash keys: one that confuses two keys, and with which `dupemap` may
-- remove too many files, is not a `Dbm`.
use magicrescue.Base.{ℕ, ◌≡◌, Option, none, some, List}
use magicrescue.Dupemap.Checksum.{Checksum}

-- `store` is `dbm_store` with DBM_INSERT.
pub record Dbm (W : Type 0) : Type 0 where
  pub fetch : Checksum → W → Option (List ℕ)
  pub store : Checksum → List ℕ → W → W
  pub fetch-store : (k : Checksum) (v : List ℕ) (w : W) → ¬ (fetch k (store k v w) ≡ none)
  pub store_keeps :
      (k k' : Checksum) (v : List ℕ) (w : W) → fetch k (store k' v w) ≡ none → fetch k w ≡ none
  pub store_only :
      (k k' : Checksum) (v x : List ℕ) (w : W)
      → fetch k w ≡ none
      → fetch k (store k' v w) ≡ some x
      → k' ≡ k
