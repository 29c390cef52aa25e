-- ===== src/Storage/Manager/Laws.antt =====
-- The page file as a sequence of pages: what a successful call reads or writes.
use novabase.Common.{
  ℕ, ◌+◌, ◌*◌, ◌^◌, ◌<◌, ◌≤◌, ◌≡◌, ◌≢◌, sym, ap, ◌∙◌, ◌⊎◌, inl, inr, Bool-cases, length, arith, leb,
  ◌==◌, ==_iff, if◌then◌else◌,
}
use mathlib.Core.Path.{subst}
use novabase.Common.Result.{Result, ok, Method, and_then-ok}
use novabase.Storage.Bytes.{Bytes, slice, write_at}
use novabase.Storage.Bytes.Laws.{length-write_at, slice-write_at_self, slice-write_at_ne}
use novabase.Storage.File.{FileSystem}
use novabase.Storage.Page.{Page, page_size}
use novabase.Storage.Page.Codec.{to_bytes, from_bytes}
use novabase.Storage.Page.Encodable.{to_bytes-from_bytes}
use novabase.Storage.Manager
use novabase.Storage.Manager.{PageManager, page_offset}

apart :
    (i j : ℕ)
    → i ≢ j
    → (j * page_size + page_size ≤ i * page_size) ⊎ (i * page_size + page_size ≤ j * page_size)
apart i j h = omega arith

module _ (fs : FileSystem) where
  open fs use {
    File, contents, position, seek_start, seek_end, read_exact, write_all, sync_all, seek_start-ok,
    seek_end-ok, read_exact-ok, write_all-ok,
  }

  -- The bytes of page `id`, decoded.
  unfoldable pub stored : PageManager fs → ℕ → Result Page
  stored m id = from_bytes (slice (id * page_size) (id * page_size + page_size) (contents m.file))

  -- The file is as long as the pages that are counted.
  pub record IsAligned (m : PageManager fs) : Type 0 where
    pub aligned : length (contents m.file) ≡ m.page_count * page_size

  pub on_file-ok :
      {A : Type 0} (f : Method File A) (m : PageManager fs) (a : A) (t : PageManager fs)
      → Manager.on_file fs f m ≡ (ok a, t)
      → (g : File) × (f m.file ≡ (ok a, g)) × (t ≡ record m { file = g })
  unfolding Manager.on_file
  on_file-ok f m a t e = ((f m.file).1, ground arith, ground arith)

  pub ensure-ok :
      (id : ℕ) (m t : PageManager fs) (u : Unit {0})
      → Manager.ensure_allocated fs id m ≡ (ok u, t)
      → (id < m.page_count) × (t ≡ m)
  unfolding Manager.ensure_allocated
  ensure-ok id m t u e = elim (Bool-cases (leb m.page_count id)) [
    | inl h ↦ cc (rw h at e)
    | inr h ↦ (ground arith, ground (arith, e, h))
  ]

  pub offset-ok : (id : ℕ) {n : ℕ} → page_offset id ≡ ok n → (n ≡ id * page_size) × (id < 2 ^ 64)
  unfolding page_offset
  offset-ok id e = ground arith

  abbrev pub file_of : PageManager fs → File
  file_of m = m.file

  -- The offset of a page that is there is not past the end.
  within_file :
      (m : PageManager fs) (f : File) (id at : ℕ)
      → IsAligned m
      → contents f ≡ contents m.file
      → position f ≡ at
      → at ≡ id * page_size
      → id < m.page_count
      → position f ≤ length (contents f)
  within_file m f id at whole kept placed n inside =
      omega (arith, ap length kept, whole.aligned, placed, n, inside)

  write_effect :
      (p : Page) (m t : PageManager fs) (u : Unit {0})
      → IsAligned m
      → Manager.write fs p m ≡ (ok u, t)
      → (bs : Bytes) × (p.id < m.page_count)
        × (p.id < 2 ^ 64)
        × (to_bytes p ≡ ok bs)
        × (contents t.file ≡ write_at (p.id * page_size) bs (contents m.file))
        × (t.page_count ≡ m.page_count)
  unfolding Manager.write
  write_effect p m t u whole e =
      let (u0, m0, e0, r0) = and_then-ok (Manager.ensure_allocated fs p.id m) _ e in
      let (bs, m1, e1, r1) = and_then-ok (to_bytes p, m0) _ r0 in
      let (at, m2, e2, r2) = and_then-ok (page_offset p.id, m1) _ r1 in
      let (u3, m3, e3, r3) = and_then-ok (Manager.on_file fs (seek_start at) m2) _ r2 in
      let (inside, same) = ensure-ok p.id m m0 u0 e0 in
      let (n, small) = offset-ok p.id {n = at} (ap (λ x. x.0) e2) in
      let (g, sought, s3) = on_file-ok (seek_start at) m2 u3 m3 e3 in
      let (h, written, s4) = on_file-ok (write_all bs) m3 u t r3 in
      let (kept, placed) = seek_start-ok at m2.file g u3 sought in
      let within =
        within_file m m3.file p.id at whole
          (cc (
            ap file_of s3,
            kept,
            same,
            ap file_of (ap (λ x. x.1) e2),
            ap file_of (ap (λ x. x.1) e1),
          ))
          (cc (ap file_of s3, placed)) n inside in
      (
        bs,
        inside,
        small,
        ap (λ x. x.0) e1,
        cc (
          write_all-ok bs m3.file h u written within,
          ap file_of s4,
          ap file_of s3,
          kept,
          placed,
          n,
          ap file_of (ap (λ x. x.1) e2),
          ap file_of (ap (λ x. x.1) e1),
        ),
        cc (same, ap (λ x. x.1) e1, ap (λ x. x.1) e2, s3, s4),
      )

  module _ (m t : PageManager fs) (id : ℕ) (bs : Bytes) (whole : IsAligned m)
      (inside : id < m.page_count) (size : length bs ≡ page_size)
      (effect : contents t.file ≡ write_at (id * page_size) bs (contents m.file)) where
    room : id * page_size + length bs ≤ length (contents m.file)
    room = omega (arith, whole.aligned, size)

    replaced : slice (id * page_size) (id * page_size + page_size) (contents t.file) ≡ bs
    replaced =
        rw effect
          (slice-write_at_self (id * page_size) bs (contents m.file) room _ (omega (arith, size)))

    others_kept :
        (j : ℕ)
        → id ≢ j
        → slice (j * page_size) (j * page_size + page_size) (contents t.file)
          ≡ slice (j * page_size) (j * page_size + page_size) (contents m.file)
    others_kept j h = rw effect (
        slice-write_at_ne (id * page_size) bs (contents m.file) room _ _
          (omega (arith, size, apart id j h)))

  -- On an aligned file, a successful write keeps the file aligned and the count, makes the written page readable under
  -- its identifier, and changes no other page.
  pub stored-write :
      (p : Page) (m t : PageManager fs) (u : Unit {0})
      → IsAligned m
      → Manager.write fs p m ≡ (ok u, t)
      → IsAligned t
        × (t.page_count ≡ m.page_count)
        × (p.id < m.page_count)
        × ((j : ℕ) → stored t j ≡ (if p.id == j then ok p else stored m j))
  stored-write p m t u whole e =
      let (bs, inside, small, made, effect, count) = write_effect p m t u whole e in
      let (size, back) = to_bytes-from_bytes p bs small made in
      (
        record {
          aligned =
              ap length effect
              ∙ length-write_at (p.id * page_size) bs (contents m.file)
                  (room m t p.id bs whole inside size effect)
              ∙ whole.aligned
              ∙ ap (λ c. c * page_size) (sym count);
        },
        count,
        inside,
        λ j. elim (Bool-cases (p.id == j)) [
          | inl same ↦ rw same (
              subst (λ k. stored t k ≡ ok p) ((==_iff p.id j).0 same)
                (unfold stored in
                  ap from_bytes (replaced m t p.id bs whole inside size effect) ∙ back))
          | inr other ↦ rw other (
              unfold stored in
              ap from_bytes
                (others_kept m t p.id bs whole inside size effect j (ground (arith, other))))
        ],
      )
