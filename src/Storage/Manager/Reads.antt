-- ===== src/Storage/Manager/Reads.antt =====
-- `PageManager::read` returns the stored page, and neither it nor `sync` changes the file.
use novabase.Common.{
  ℕ, ◌+◌, ◌*◌, ◌<◌, ◌≡◌, refl, sym, ap, ◌∙◌, inl, inr, Bool, true, false, Bool-cases, arith, leb,
  ◌==◌, not,
}
use novabase.Common.Result.{
  NovaError, Result, ok, err, corruption, Method, and_then, and_then-ok, fail_if,
}
use novabase.Storage.Bytes.{slice}
use novabase.Storage.File.{FileSystem}
use novabase.Storage.Page.{Page, page_size}
use novabase.Storage.Page.Codec.{from_bytes}
use novabase.Storage.Manager
use novabase.Storage.Manager.{PageManager, page_offset}
use novabase.Storage.Manager.Laws.{stored, on_file-ok, ensure-ok, offset-ok, file_of}

fail_if-ok {ℓ} :
    {S : Type ℓ} (b : Bool) (x : NovaError) (s t : S) {u : Unit {ℓ}}
    → fail_if b x s ≡ (ok u, t)
    → b ≡ false
fail_if-ok true x s t e = cc
fail_if-ok false x s t e = refl

module _ (fs : FileSystem) where
  open fs use {
    File, contents, position, seek_start, seek_end, read_exact, write_all, sync_all, seek_start-ok,
    seek_end-ok, read_exact-ok, write_all-ok, seek_start-err, read_exact-err, sync_all-ok,
    sync_all-err,
  }

  -- The file's bytes and the count are what they were.
  pub record Unchanged (m t : PageManager fs) : Type 0 where
    pub bytes : contents t.file ≡ contents m.file
    pub count : t.page_count ≡ m.page_count

  pub stored-Unchanged :
      (m t : PageManager fs) (id : ℕ) → Unchanged m t → stored fs t id ≡ stored fs m id
  unfolding stored
  stored-Unchanged m t id h =
      ap (λ c. from_bytes (slice (id * page_size) (id * page_size + page_size) c)) h.bytes

  on_file-Unchanged :
      {A : Type 0} (f : Method File A) (m s : PageManager fs)
      → ((g : File) (a : A) → f s.file ≡ (ok a, g) → contents g ≡ contents s.file)
      → ((g : File) (e : NovaError) → f s.file ≡ (err e, g) → contents g ≡ contents s.file)
      → Unchanged m s
      → Unchanged m (Manager.on_file fs f s).1
  unfolding Manager.on_file
  on_file-Unchanged {A} f m s yes_ok on_err h = go (f s.file) refl
    where
      outcome : Result A × File → Result A × PageManager fs
      outcome (r, g) = (r, record s { file = g })

      go : (x : Result A × File) → f s.file ≡ x → Unchanged m (outcome x).1
      go (ok a, g) e = record { bytes = yes_ok g a e ∙ h.bytes; count = h.count }
      go (err x, g) e = record { bytes = on_err g x e ∙ h.bytes; count = h.count }

  bind-Unchanged :
      {A B : Type 0} (m : PageManager fs) (x : Result A × PageManager fs)
      (f : A → Method (PageManager fs) B)
      → Unchanged m x.1
      → ((a : A) (s : PageManager fs) → Unchanged m s → Unchanged m (f a s).1)
      → Unchanged m (and_then x f).1
  bind-Unchanged m (ok a, s) f h k = k a s h
  bind-Unchanged m (err e, s) f h k = h

  ensure-Unchanged :
      (id : ℕ) (m : PageManager fs) → Unchanged m (Manager.ensure_allocated fs id m).1
  unfolding Manager.ensure_allocated
  ensure-Unchanged id m = elim (Bool-cases (leb m.page_count id)) [
    | inl h ↦ rw h (record { bytes = refl; count = refl })
    | inr h ↦ rw h (record { bytes = refl; count = refl })
  ]

  fail_if-Unchanged :
      (b : Bool) (e : NovaError) (m s : PageManager fs)
      → Unchanged m s
      → Unchanged m (fail_if b e s).1
  fail_if-Unchanged true e m s h = h
  fail_if-Unchanged false e m s h = h

  -- Reading a page, whether it succeeds or fails, changes no byte of the file and not the count.
  pub read-Unchanged : (id : ℕ) (m : PageManager fs) → Unchanged m (Manager.read fs id m).1
  unfolding Manager.read
  read-Unchanged id m =
      bind-Unchanged m (Manager.ensure_allocated fs id m) _ (ensure-Unchanged id m) λ u s h.
        bind-Unchanged m (page_offset id, s) _ h
          λ at s1 h1.
            bind-Unchanged m (Manager.on_file fs (seek_start at) s1) _
              (on_file-Unchanged (seek_start at) m s1 (λ g a e. (seek_start-ok at s1.file g a e).0)
                (λ g x e. seek_start-err at s1.file g x e) h1)
              λ v s2 h2.
                bind-Unchanged m (Manager.on_file fs (read_exact page_size) s2) _
                  (on_file-Unchanged (read_exact page_size) m s2
                    (λ g a e. (read_exact-ok page_size s2.file g a e).0)
                    (λ g x e. read_exact-err page_size s2.file g x e) h2)
                  λ bs s3 h3.
                    bind-Unchanged m (from_bytes bs, s3) _ h3
                      λ p s4 h4.
                        bind-Unchanged m (fail_if (not (p.id == id)) corruption s4) _
                          (fail_if-Unchanged _ corruption m s4 h4) λ w s5 h5. h5

  pub sync-Unchanged : (m : PageManager fs) → Unchanged m (Manager.sync fs m).1
  unfolding Manager.sync
  sync-Unchanged m =
      on_file-Unchanged sync_all m m (λ g a e. sync_all-ok m.file g a e)
        (λ g x e. sync_all-err m.file g x e) (record { bytes = refl; count = refl })

  -- A successful read returns the page that is stored under the identifier, which is allocated and
  -- is the page's own.
  pub read-stored :
      (id : ℕ) (m t : PageManager fs) (p : Page)
      → Manager.read fs id m ≡ (ok p, t)
      → (id < m.page_count) × (p.id ≡ id) × (stored fs m id ≡ ok p)
  unfolding Manager.read
  read-stored id m t p e =
      let (u0, m0, e0, r0) = and_then-ok (Manager.ensure_allocated fs id m) _ e in
      let (at, m1, e1, r1) = and_then-ok (page_offset id, m0) _ r0 in
      let (u2, m2, e2, r2) = and_then-ok (Manager.on_file fs (seek_start at) m1) _ r1 in
      let (bs, m3, e3, r3) = and_then-ok (Manager.on_file fs (read_exact page_size) m2) _ r2 in
      let (q, m4, e4, r4) = and_then-ok (from_bytes bs, m3) _ r3 in
      let (u5, m5, e5, r5) = and_then-ok (fail_if (not (q.id == id)) corruption m4) _ r4 in
      let (inside, same) = ensure-ok fs id m m0 u0 e0 in
      let (n, small) = offset-ok fs id {n = at} (ap (λ x. x.0) e1) in
      let (g, sought, s2) = on_file-ok fs (seek_start at) m1 u2 m2 e2 in
      let (h, got, s3) = on_file-ok fs (read_exact page_size) m2 bs m3 e3 in
      let (kept, placed) = seek_start-ok at m1.file g u2 sought in
      let (kept', room, bytes) = read_exact-ok page_size m2.file h bs got in
      let right = fail_if-ok (not (q.id == id)) corruption m4 m5 e5 in
      let whole : bs ≡ slice (id * page_size) (id * page_size + page_size) (contents m.file) = cc (
        bytes,
        ap (file_of fs) s2,
        kept,
        placed,
        n,
        ap (file_of fs) (ap (λ x. x.1) e1),
        ap (file_of fs) same,
      ) in
      (
        inside,
        ground (arith, right, r5),
        unfold stored in ap from_bytes (sym whole) ∙ ap (λ x. x.0) e4 ∙ ap (λ x. x.0) r5,
      )
