-- ===== src/Device.antt =====
-- The file descriptor that a scan reads, as far as POSIX describes it: the interface between
-- `scan_disk`, which reads, and `extract`, whose child process may move the position.
pub mod Reads
use magicrescue.Base.{ℕ, ◌+◌, ◌≤◌, ◌<◌, ◌≡◌, Option, some, List, length, get_or}

-- `read` returns the bytes read, or `none` for -1; `seek` is `lseek` to an absolute position.
pub record Device (W : Type 0) : Type 0 where
  pub content : ℕ → ℕ
  pub size : ℕ
  pub position : W → ℕ
  pub read : ℕ → W → Option (List ℕ) × W
  pub seek : ℕ → W → Option W
  -- A read takes at most the bytes asked for, from the position on, inside the file.
  pub read_count : (n : ℕ) (w : W) (bs : List ℕ) → (read n w).0 ≡ some bs → length bs ≤ n
  pub read_moves :
      (n : ℕ) (w : W) (bs : List ℕ)
      → (read n w).0 ≡ some bs
      → position (read n w).1 ≡ position w + length bs
  pub read_bytes :
      (n : ℕ) (w : W) (bs : List ℕ) (i : ℕ)
      → (read n w).0 ≡ some bs
      → i < length bs
      → get_or bs i 0 ≡ content (position w + i)
  pub read_inside :
      (n : ℕ) (w : W) (bs : List ℕ)
      → (read n w).0 ≡ some bs
      → 0 < length bs
      → position w + length bs ≤ size
  pub seek_position : (x : ℕ) (w w' : W) → seek x w ≡ some w' → position w' ≡ x
