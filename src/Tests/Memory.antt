-- ===== src/Tests/Memory.antt =====
-- A file in memory, which every call on it succeeds on, as a page file and as a log file.
use novabase.Common.{
  ℕ, ◌+◌, ◌≤◌, ◌≡◌, sym, ap, Bool-cases, inl, inr, ◌++◌, length, take, leb, arith, if◌then◌else◌,
}
use novabase.Common.Result.{NovaError, ok, err, io, Method}
use novabase.Storage.Bytes.{Bytes, slice, write_at}
use novabase.Storage.File.{FileSystem}
use novabase.Wal.Log.{LogFile}

pub record MemoryFile : Type 0 where
  pub contents : Bytes
  pub position : ℕ

abbrev pub read_exact : ℕ → Method MemoryFile Bytes
read_exact n f =
    if leb (f.position + n) (length f.contents)
    then (ok (slice f.position (f.position + n) f.contents), record f { position = f.position + n })
    else (err io, f)

pub read_exact-ok :
    (n : ℕ) (f g : MemoryFile) (bs : Bytes)
    → read_exact n f ≡ (ok bs, g)
    → (g.contents ≡ f.contents)
      × (f.position + n ≤ length f.contents)
      × (bs ≡ slice f.position (f.position + n) f.contents)
read_exact-ok n f g bs e = elim (Bool-cases (leb (f.position + n) (length f.contents))) [
  | inl room ↦
      let r = rw room at e in
      (ap (λ x. x.1.contents) (sym r), ground (arith, room), ground (arith, ap (λ x. x.0) r))
  | inr short ↦ cc (rw short at e)
]

pub read_exact-err :
    (n : ℕ) (f g : MemoryFile) (e : NovaError)
    → read_exact n f ≡ (err e, g)
    → g.contents ≡ f.contents
read_exact-err n f g e h = elim (Bool-cases (leb (f.position + n) (length f.contents))) [
  | inl room ↦ cc (rw room at h)
  | inr short ↦ ap (λ x. x.1.contents) (sym (rw short at h))
]

abbrev pub memory : FileSystem
memory = record {
  File = MemoryFile;
  contents = λ f. f.contents;
  position = λ f. f.position;
  metadata_len = λ f. (ok (length f.contents), f);
  seek_start = λ n f. (ok tt, record f { position = n });
  seek_end = λ f. (ok tt, record f { position = length f.contents });
  read_exact = read_exact;
  write_all = λ bs f. (
    ok tt,
    record { contents = write_at f.position bs f.contents; position = f.position + length bs },
  );
  sync_all = λ f. (ok tt, f);
  metadata_len-ok = λ f g n e. (sym (ap (λ x. x.1) e), ground (arith, ap (λ x. x.0) e));
  seek_start-ok = λ n f g u e. (ap (λ x. x.1.contents) (sym e), ap (λ x. x.1.position) (sym e));
  seek_start-err = λ n f g e h. cc (h);
  seek_end-ok = λ f g u e. (ap (λ x. x.1.contents) (sym e), ap (λ x. x.1.position) (sym e));
  read_exact-ok = read_exact-ok;
  read_exact-err = read_exact-err;
  write_all-ok = λ bs f g u e h. ap (λ x. x.1.contents) (sym e);
  sync_all-ok = λ f g u e. ap (λ x. x.1.contents) (sym e);
  sync_all-err = λ f g e h. cc (h);
}

-- A log file, of which only a synchronization reaches the disk
pub record MemoryLog : Type 0 where
  pub contents : Bytes
  pub synced : Bytes

abbrev pub log_memory : LogFile
log_memory = record {
  File = MemoryLog;
  contents = λ f. f.contents;
  synced = λ f. f.synced;
  read_to_end = λ f. (ok f.contents, f);
  set_len = λ n f. (ok tt, record f { contents = take n f.contents });
  append_all = λ bs f. (ok tt, record f { contents = f.contents ++ bs });
  sync_all = λ f. (ok tt, record f { synced = f.contents });
  read_to_end-ok = λ f g bs e. (ground (arith, ap (λ x. x.0) e), ap (λ x. x.1.contents) (sym e));
  set_len-ok = λ n f g u e h. ap (λ x. x.1.contents) (sym e);
  append_all-ok = λ bs f g u e. ap (λ x. x.1.contents) (sym e);
  sync_all-ok = λ f g u e. (ap (λ x. x.1.contents) (sym e), ap (λ x. x.1.synced) (sym e));
}
