-- ===== src/Storage/File.antt =====
-- What the crates use of `std::fs::File`: an interface, with the documented behaviour of the calls
-- that succeed and of the reading calls that fail. Nothing is said of a file after a failed write,
-- or after a write beyond its end.
use novabase.Common.{ℕ, ◌+◌, ◌≤◌, ◌≡◌, length}
use novabase.Common.Result.{NovaError, ok, err, Method}
use novabase.Storage.Bytes.{Bytes, slice, write_at}

pub record FileSystem : Type 1 where
  pub File : Type 0
  pub contents : File → Bytes
  pub position : File → ℕ
  -- `file.metadata()?.len()`
  pub metadata_len : Method File ℕ
  -- `seek(SeekFrom::Start(n))`, `seek(SeekFrom::End(0))`
  pub seek_start : ℕ → Method File (Unit {0})
  pub seek_end : Method File (Unit {0})
  pub read_exact : ℕ → Method File Bytes
  pub write_all : Bytes → Method File (Unit {0})
  pub sync_all : Method File (Unit {0})
  pub metadata_len-ok :
      (f g : File) (n : ℕ) → metadata_len f ≡ (ok n, g) → (g ≡ f) × (n ≡ length (contents f))
  pub seek_start-ok :
      (n : ℕ) (f g : File) (u : Unit {0})
      → seek_start n f ≡ (ok u, g)
      → (contents g ≡ contents f) × (position g ≡ n)
  pub seek_start-err :
      (n : ℕ) (f g : File) (e : NovaError) → seek_start n f ≡ (err e, g) → contents g ≡ contents f
  pub seek_end-ok :
      (f g : File) (u : Unit {0})
      → seek_end f ≡ (ok u, g)
      → (contents g ≡ contents f) × (position g ≡ length (contents f))
  pub read_exact-ok :
      (n : ℕ) (f g : File) (bs : Bytes)
      → read_exact n f ≡ (ok bs, g)
      → (contents g ≡ contents f)
        × (position f + n ≤ length (contents f))
        × (bs ≡ slice (position f) (position f + n) (contents f))
  pub read_exact-err :
      (n : ℕ) (f g : File) (e : NovaError) → read_exact n f ≡ (err e, g) → contents g ≡ contents f
  pub write_all-ok :
      (bs : Bytes) (f g : File) (u : Unit {0})
      → write_all bs f ≡ (ok u, g)
      → position f ≤ length (contents f)
      → contents g ≡ write_at (position f) bs (contents f)
  pub sync_all-ok : (f g : File) (u : Unit {0}) → sync_all f ≡ (ok u, g) → contents g ≡ contents f
  pub sync_all-err :
      (f g : File) (e : NovaError) → sync_all f ≡ (err e, g) → contents g ≡ contents f
