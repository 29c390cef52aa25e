-- ===== src/Storage/Manager.antt =====
-- crates/nova-storage/src/manager.rs: direct page I/O over one page file. The path is not modelled.
pub mod Laws
pub mod Reads
pub mod Allocates
use novabase.Common.{
  ℕ, ◌+◌, ◌*◌, ◌/◌, ◌%◌, ◌^◌, Bool, true, false, not, ltb, leb, ◌==◌, if◌then◌else◌,
}
use novabase.Common.Result.{
  NovaError, Result, ok, err, storage, corruption, not_found, Method, ◌>>=◌, ◌>>◌, return, fail_if,
  lift, gets, modify,
}
use novabase.Storage.Bytes.{Bytes}
use novabase.Storage.File.{FileSystem}
use novabase.Storage.Page.{Page, page_size, new}
use novabase.Storage.Page.Codec.{to_bytes, from_bytes}

unfoldable pub page_offset : ℕ → Result ℕ
page_offset id = if ltb (id * page_size) (2 ^ 64) then ok (id * page_size) else err storage

module _ (fs : FileSystem) where
  open fs use {File, metadata_len, seek_start, seek_end, read_exact, write_all, sync_all}

  pub record PageManager : Type 0 where
    pub file : File
    pub page_count : ℕ

  -- A call on the manager's file.
  unfoldable pub on_file : {A : Type 0} → Method File A → Method PageManager A
  on_file m s = let (r, f) = m s.file in (r, record s { file = f })

  unfoldable pub opened : Result ℕ × File → Result PageManager
  opened (err e, f) = err e
  opened (ok length, f) =
      if not (length % page_size == 0)
      then err corruption
      else ok (record { file = f; page_count = length / page_size })

  -- `PageManager::open`, from the outcome of opening the file itself
  unfoldable pub open_manager : Result File → Result PageManager
  unfolding opened
  open_manager (err e) = err e
  open_manager (ok f) = opened (metadata_len f)

  -- `PageManager::ensure_allocated`
  unfoldable pub ensure_allocated : ℕ → Method PageManager (Unit {0})
  ensure_allocated id s = fail_if (leb s.page_count id) not_found s

  unfoldable pub bump_count : Method PageManager (Unit {0})
  bump_count s =
      if ltb (s.page_count + 1) (2 ^ 64)
      then (ok tt, record s { page_count = s.page_count + 1 })
      else (err storage, s)

  -- `PageManager::allocate`
  unfoldable pub allocate : Method PageManager ℕ
  unfolding on_file bump_count
  allocate = do
    id ← gets (λ s. s.page_count)
    bytes ← lift (to_bytes (new id))
    on_file seek_end
    on_file (write_all bytes)
    bump_count
    return id

  -- `PageManager::read`
  unfoldable pub read : ℕ → Method PageManager Page
  unfolding on_file ensure_allocated
  read id = do
    ensure_allocated id
    offset ← lift (page_offset id)
    on_file (seek_start offset)
    bytes ← on_file (read_exact page_size)
    page ← lift (from_bytes bytes)
    fail_if (not (page.id == id)) corruption
    return page

  -- `PageManager::write`
  unfoldable pub write : Page → Method PageManager (Unit {0})
  unfolding on_file ensure_allocated
  write page = do
    ensure_allocated page.id
    bytes ← lift (to_bytes page)
    offset ← lift (page_offset page.id)
    on_file (seek_start offset)
    on_file (write_all bytes)

  -- `PageManager::sync`
  unfoldable pub sync : Method PageManager (Unit {0})
  unfolding on_file
  sync = on_file sync_all
