-- ===== src/Device/Reads.antt =====
-- What a read returns, as a slice of the file.
use magicrescue.Base.{ℕ, ◌≡◌, List, some, length}
use magicrescue.Memory.Slice.{bytes_from, eq-bytes_from}
use magicrescue.Device.{Device}

pub read-bytes_from :
    {W : Type 0} (dev : Device W) (n : ℕ) (w : W) (bs : List ℕ)
    → (dev.read n w).0 ≡ some bs
    → bs ≡ bytes_from dev.content (dev.position w) (length bs)
read-bytes_from dev n w bs e =
    eq-bytes_from dev.content (dev.position w) bs (λ i h. dev.read_bytes n w bs i e h)
