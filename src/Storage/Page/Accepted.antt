-- ===== src/Storage/Page/Accepted.antt =====
-- What holds of every page that the decoder accepts, whatever the bytes.
use novabase.Common.{
  ℕ, zero, suc, ◌+◌, ◌-◌, ◌*◌, ◌^◌, ◌<◌, ◌≤◌, ◌≡◌, refl, ap, Bool, true, false, Option, none, some,
  List, [], ◌∷◌, ◌++◌, All, length, arith, ltb, ◌==◌, ◌||◌, not, length-append, length-take,
  length-drop, take, drop,
}
use mathlib.Core.Path.{subst}
use native.Mathlib.Nat.{pow-suc, one-le-pow}
use novabase.Common.Result.{Result, ok, err, corruption}
use novabase.Common.Checked.{◌>>=◌, ◌>>◌, refuse_if, >>=-ok}
use novabase.Storage.Bytes.{Bytes, IsByte, slice, from_be, from_be_bytes}
use novabase.Storage.Page.{Page, page_size, page_header_size, slot_size, payload_size}
use novabase.Storage.Page.Space.{Fits, used, payload_size-push}
use novabase.Storage.Page.Codec.{
  from_bytes, to_bytes, decode_slots, check_header, check_slots, read_word, Range, total,
  directory_offset,
}
use novabase.Storage.Page.RoundTrip.{from_bytes-to_bytes}
use novabase.Storage.Page.Reading.{total-push}

payload_size-push_none :
    (slots : List (Option Bytes)) → payload_size (slots ++ none ∷ []) ≡ payload_size slots
unfolding payload_size
payload_size-push_none [] = refl
payload_size-push_none (none ∷ xs) = payload_size-push_none xs
payload_size-push_none (some x ∷ xs) = ap (λ t. length x + t) (payload_size-push_none xs)

length-slice : (from to : ℕ) (bs : Bytes) → to ≤ length bs → length (slice from to bs) ≡ to - from
unfolding slice
length-slice from to bs h =
    omega (arith, length-take (to - from) (drop from bs), length-drop from bs)

decode_slots_sound :
    (left index free_end : ℕ) (bs : Bytes) (ranges ranges' : List Range)
    (done slots : List (Option Bytes))
    → decode_slots left index free_end bs ranges done ≡ ok (ranges', slots)
    → length bs ≡ page_size
    → total ranges ≡ payload_size done
    → (total ranges' ≡ payload_size slots) × (length slots ≡ length done + left)
unfolding decode_slots
decode_slots_sound zero index free_end bs ranges ranges' done slots e l t = ground arith
decode_slots_sound (suc left) index free_end bs ranges ranges' done slots e l t =
    let start = read_word 2 (directory_offset index) bs in
    let size = read_word 2 (directory_offset index + 2) bs in
    ground (
      arith,
      decode_slots_sound left (suc index) free_end bs ranges ranges' (done ++ none ∷ []) slots,
      decode_slots_sound left (suc index) free_end bs (ranges ++ (start, start + size) ∷ []) ranges'
          (done ++ some (slice start (start + size) bs) ∷ []) slots,
      length-append done (none ∷ []),
      length-append done (some (slice start (start + size) bs) ∷ []),
      payload_size-push_none done,
      payload_size-push done (slice start (start + size) bs),
      total-push start (start + size) ranges,
      length-slice start (start + size) bs,
    )

check_header-length : (bs : Bytes) {u : Unit {0}} → check_header bs ≡ ok u → length bs ≡ page_size
unfolding check_header
check_header-length bs e =
    let (u, a, b) = >>=-ok (refuse_if (not (length bs == page_size)) corruption) _ e in
    ground (arith, a)

check_slots-total :
    (live free_end : ℕ) (ranges : List Range) (slots : List (Option Bytes)) {u : Unit {0}}
    → check_slots live free_end ranges slots ≡ ok u
    → page_size - free_end ≡ total ranges
unfolding check_slots
check_slots-total live free_end ranges slots e = ground arith

bounds_read :
    (count start end : ℕ)
    → (not (start == page_header_size + count * slot_size) || ltb end start || ltb page_size end)
      ≡ false
    → (page_header_size + count * slot_size ≤ end) × (end ≤ page_size)
bounds_read count start end e = ground arith

-- What a successful decoding has passed.
passed :
    (h : Result (Unit {0})) (b : Bool) (d : Result (List Range × List (Option Bytes)))
    (c : List Range → List (Option Bytes) → Result (Unit {0})) (f : List (Option Bytes) → Page)
    {p : Page}
    → (h >>= λ _. refuse_if b corruption >> (d >>= λ x. c x.0 x.1 >> ok (f x.1))) ≡ ok p
    → (h ≡ ok tt)
      × (b ≡ false)
      × (ranges : List Range) × (slots : List (Option Bytes)) × (d ≡ ok (ranges, slots))
      × (c ranges slots ≡ ok tt)
      × (f slots ≡ p)
passed (err x) b d c f e = cc
passed (ok u) true d c f e = cc
passed (ok u) false (err x) c f e = cc
passed (ok u) false (ok (ranges, slots)) c f e =
    (refl, refl, ranges, slots, refl, ground arith, ground arith)

accepted : (bs : Bytes) (p : Page) → from_bytes bs ≡ ok p → Fits p × (p.id ≡ read_word 8 8 bs)
unfolding from_bytes used
accepted bs p e =
    let (h, b, ranges, slots, d, c, f) =
      passed (check_header bs)
        (not (read_word 2 24 bs == page_header_size + read_word 2 20 bs * slot_size)
          || ltb (read_word 2 26 bs) (read_word 2 24 bs)
          || ltb page_size (read_word 2 26 bs))
        (decode_slots (read_word 2 20 bs) 0 (read_word 2 26 bs) bs [] [])
        (check_slots (read_word 2 22 bs) (read_word 2 26 bs))
        (λ slots. record { id = read_word 8 8 bs; slots = slots }) e in
    let (t, n) =
      decode_slots_sound (read_word 2 20 bs) 0 (read_word 2 26 bs) bs [] ranges [] slots d
        (check_header-length bs h) (unfold total payload_size in refl) in
    subst (λ (q : Page). Fits q × (q.id ≡ read_word 8 8 bs)) f
      (
        omega (
          arith,
          t,
          n,
          check_slots-total _ (read_word 2 26 bs) ranges slots c,
          bounds_read (read_word 2 20 bs) (read_word 2 24 bs) (read_word 2 26 bs) b,
        ),
        refl,
      )

mono : (a b p : ℕ) → a ≤ b → a * p ≤ b * p
mono a b p h = grind arith

scaled : (a b c p : ℕ) → a < b * c → c ≤ p → a < b * p
scaled a b c p h k = grind arith

from_be-bound :
    (acc : ℕ) (bs : Bytes) (n : ℕ)
    → All IsByte bs
    → length bs ≤ n
    → from_be acc bs < (acc + 1) * 256 ^ n
unfolding from_be
from_be-bound acc [] n a h =
    scaled acc (acc + 1) 1 (256 ^ n) (omega arith) (one-le-pow n 256 (omega arith))
from_be-bound acc (b ∷ bs) zero a h = absurd (omega arith)
from_be-bound acc (b ∷ bs) (suc n) (x, a) h =
    let p = 256 ^ n in
    omega (
      arith,
      from_be-bound (acc * 256 + b) bs n a (omega arith),
      pow-suc 256 n,
      mono (acc * 256 + b + 1) ((acc + 1) * 256) p (omega arith),
      ap (λ (t : ℕ). (acc + 1) * t) (pow-suc 256 n),
    )

All-take : (n : ℕ) (bs : Bytes) → All IsByte bs → All IsByte (take n bs)
All-take zero bs a = tt
All-take (suc n) [] a = tt
All-take (suc n) (b ∷ bs) (x, a) = (x, All-take n bs a)

All-drop : (n : ℕ) (bs : Bytes) → All IsByte bs → All IsByte (drop n bs)
All-drop zero bs a = a
All-drop (suc n) [] a = tt
All-drop (suc n) (b ∷ bs) (x, a) = All-drop n bs a

id_bound : (bs : Bytes) → All IsByte bs → read_word 8 8 bs < 2 ^ 64
unfolding from_be_bytes slice
id_bound bs a =
    from_be-bound 0 (take 8 (drop 8 bs)) 8 (All-take 8 _ (All-drop 8 bs a))
      (omega (arith, length-take 8 (drop 8 bs)))

-- Whatever bytes the decoder accepts, the page that it returns fits the page size, so that it can
-- be written again, and what is then written decodes to the same page.
pub accepted_again :
    (bs : Bytes) (p : Page)
    → All IsByte bs
    → from_bytes bs ≡ ok p
    → Fits p × (cs : Bytes) × (to_bytes p ≡ ok cs) × (from_bytes cs ≡ ok p)
accepted_again bs p a e =
    let (fits, id) = accepted bs p e in
    let (cs, w, l, r) = from_bytes-to_bytes p fits (omega (arith, id, id_bound bs a)) in
    (fits, cs, w, r)
