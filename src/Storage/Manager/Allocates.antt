-- ===== src/Storage/Manager/Allocates.antt =====
-- `PageManager::allocate` appends an empty page, and `open` begins from an aligned file.
use novabase.Common.{
  ◌≤◌, ℕ, ◌+◌, ◌*◌, ◌/◌, ◌%◌, ◌^◌, ◌<◌, ◌≡◌, refl, sym, ap, ◌∙◌, inl, inr, false, Bool-cases, ◌++◌,
  length, arith, ltb, ◌==◌, not, length-append,
}
use novabase.Common.Result.{Result, ok, err, and_then-ok}
use novabase.Storage.Bytes.{Bytes}
use novabase.Storage.Bytes.Laws.{write_at-end, slice-append_front, slice-append_end}
use novabase.Storage.File.{FileSystem}
use novabase.Storage.Page.{page_size, new}
use novabase.Storage.Page.Codec.{to_bytes, from_bytes}
use novabase.Storage.Page.Encodable.{to_bytes-from_bytes}
use novabase.Storage.Manager
use novabase.Storage.Manager.{PageManager, page_offset}
use novabase.Storage.Manager.Laws.{stored, IsAligned, on_file-ok, file_of}

bump-ok :
    (fs : FileSystem) (m t : PageManager fs) (u : Unit {0})
    → Manager.bump_count fs m ≡ (ok u, t)
    → (t ≡ record m { page_count = m.page_count + 1 }) × (m.page_count + 1 < 2 ^ 64)
unfolding Manager.bump_count
bump-ok fs m t u e = elim (Bool-cases (ltb (m.page_count + 1) (2 ^ 64))) [
  | inl h ↦ (ground (arith, e, h), ground (arith, h))
  | inr h ↦ cc (rw h at e)
]

exact : (n : ℕ) → not (n % page_size == 0) ≡ false → n ≡ n / page_size * page_size
exact n h = ground arith

module _ (fs : FileSystem) where
  open fs use {
    File, contents, position, metadata_len, metadata_len-ok, seek_end, write_all, seek_end-ok,
    write_all-ok,
  }

  allocate_effect :
      (m t : PageManager fs) (id : ℕ)
      → Manager.allocate fs m ≡ (ok id, t)
      → (bs : Bytes) × (id ≡ m.page_count)
        × (id < 2 ^ 64)
        × (to_bytes (new id) ≡ ok bs)
        × (contents t.file ≡ contents m.file ++ bs)
        × (t.page_count ≡ m.page_count + 1)
  unfolding Manager.allocate
  allocate_effect m t id e =
      let (bs, m1, e1, r1) = and_then-ok (to_bytes (new m.page_count), m) _ e in
      let (u2, m2, e2, r2) = and_then-ok (Manager.on_file fs seek_end m1) _ r1 in
      let (u3, m3, e3, r3) = and_then-ok (Manager.on_file fs (write_all bs) m2) _ r2 in
      let (u4, m4, e4, r4) = and_then-ok (Manager.bump_count fs m3) _ r3 in
      let (g, sought, s2) = on_file-ok fs seek_end m1 u2 m2 e2 in
      let (h, written, s3) = on_file-ok fs (write_all bs) m2 u3 m3 e3 in
      let (s4, small) = bump-ok fs m3 m4 u4 e4 in
      let (kept, placed) = seek_end-ok m1.file g u2 sought in
      let file2 : m2.file ≡ g = ap (file_of fs) s2 in
      let within : position m2.file ≤ length (contents m2.file) =
        omega (
          arith,
          ap position file2 ∙ placed,
          ap (λ f. length (contents f)) file2 ∙ ap length kept,
        ) in
      let count : m3.page_count ≡ m.page_count =
        ap (λ x. x.page_count) s3
        ∙ ap (λ x. x.page_count) s2
        ∙ ap (λ x. x.page_count) (sym (ap (λ x. x.1) e1)) in
      let last : m4 ≡ t = ap (λ x. x.1) r4 in
      let named : m.page_count ≡ id = ground (arith, r4) in
      (
        bs,
        sym named,
        omega (arith, small, count, named),
        rw (← named) (ap (λ x. x.0) e1),
        cc (
          write_all-ok bs m2.file h u3 written within,
          ap (file_of fs) s3,
          ap (file_of fs) s2,
          kept,
          placed,
          ap (file_of fs) (ap (λ x. x.1) e1),
          write_at-end bs (contents m.file),
          ap (file_of fs) s4,
          ap (file_of fs) last,
        ),
        ap (λ x. x.page_count) (sym last) ∙ ap (λ x. x.page_count) s4 ∙ ap (λ c. c + 1) count,
      )

  -- On an aligned file, a successful allocation takes the next identifier, stores an empty page under it, keeps every
  -- earlier page and leaves the file aligned.
  pub stored-allocate :
      (m t : PageManager fs) (id : ℕ)
      → IsAligned fs m
      → Manager.allocate fs m ≡ (ok id, t)
      → IsAligned fs t
        × (id ≡ m.page_count)
        × (t.page_count ≡ m.page_count + 1)
        × (stored fs t id ≡ ok (new id))
        × ((j : ℕ) → j < m.page_count → stored fs t j ≡ stored fs m j)
  stored-allocate m t id whole e =
      let (bs, named, small, made, effect, count) = allocate_effect m t id e in
      let (size, back) = to_bytes-from_bytes (new id) bs (unfold new in small) made in
      (
        record {
          aligned =
              ap length effect
              ∙ length-append (contents m.file) bs
              ∙ omega (arith, whole.aligned, size, count);
        },
        named,
        count,
        (unfold stored in
            rw effect (
              ap from_bytes (
                slice-append_end (id * page_size) (id * page_size + page_size) (contents m.file) bs
                  (omega (arith, whole.aligned, named)) (omega (arith, whole.aligned, named, size)))
              ∙ back)),
        λ j inside.
            unfold stored in
            rw effect (
              ap from_bytes (
                slice-append_front (j * page_size) (j * page_size + page_size) (contents m.file) bs
                  (omega (arith, whole.aligned)))),
      )

  opened-IsAligned :
      (f : File) (x : Result ℕ × File) (m : PageManager fs)
      → metadata_len f ≡ x
      → Manager.opened fs x ≡ ok m
      → IsAligned fs m × (contents m.file ≡ contents f)
  unfolding Manager.opened
  opened-IsAligned f (err x, g) m h e = cc
  opened-IsAligned f (ok n, g) m h e =
      let (same, size) = metadata_len-ok f g n h in
      elim (Bool-cases (not (n % page_size == 0))) [
        | inl odd ↦ cc (rw odd at e)
        | inr whole ↦
            let made : record { file = g; page_count = n / page_size } ≡ m =
              ground (arith, e, whole) in
            let file : m.file ≡ g = sym (ap (λ x. x.file) made) in
            let count : m.page_count ≡ n / page_size = sym (ap (λ x. x.page_count) made) in
            let kept : contents m.file ≡ contents f = ap contents (file ∙ same) in
            (record { aligned = omega (arith, ap length kept, size, count, exact n whole) }, kept)
      ]

  -- A manager that opens has the file as it was, and begins with a whole number of pages.
  pub open_manager-IsAligned :
      (f : File) (m : PageManager fs)
      → Manager.open_manager fs (ok f) ≡ ok m
      → IsAligned fs m × (contents m.file ≡ contents f)
  unfolding Manager.open_manager
  open_manager-IsAligned f m e = opened-IsAligned f (metadata_len f) m refl e
