-- ===== src/Wal/Decoding.antt =====
-- crates/nova-wal/src/lib.rs: decoding a log ends, with records that are numbered or with an error.
use novabase.Common.{
  ℕ, zero, suc, ◌+◌, ◌-◌, ◌≤◌, ◌≡◌, ◌⊎◌, inl, inr, refl, sym, ap, ◌∙◌, Bool, true, false, not,
  Bool-cases, Option, List, [], ◌∷◌, ◌++◌, length, take, drop, length-drop, ltb, ◌==◌,
  if◌then◌else◌, arith,
}
use novabase.Common.Result.{NovaError, Result, ok, err, corruption, unsupported}
use novabase.Common.Checked.{◌>>=◌, refuse_if, >>=-ok, refuse_if-ok}
use novabase.Storage.Bytes.{Bytes}
use novabase.Storage.Checksum.{crc32}
use novabase.Storage.Page.Codec
use novabase.Storage.Page.Codec.{decode_slots, check_slots, from_bytes, read_word, Range}
use novabase.Wal.Record.{
  LogRecord, header_size, check_header, decode_operation, decode_page_write, decode_record,
  checksum_offset, decode_loop, decode_records,
}

abbrev IsDamage : NovaError → Type 0
IsDamage e = (e ≡ corruption) ⊎ (e ≡ unsupported)

-- What fails has found damage.
abbrev FindsDamage : {A : Type 0} → Result A → Type 0
FindsDamage r = (e : NovaError) → r ≡ err e → IsDamage e

bind-FindsDamage :
    {A B : Type 0} (first : Result A) (rest : A → Result B)
    → FindsDamage first
    → ((a : A) → FindsDamage (rest a))
    → FindsDamage (first >>= rest)
bind-FindsDamage (ok a) rest h k e p = k a e p
bind-FindsDamage (err kind) rest h k e p = h e (ap (λ x. err x) (ground (arith, p)))

corruption-FindsDamage : (bad : Bool) → FindsDamage (refuse_if bad corruption)
corruption-FindsDamage bad e p = inl (ground (arith, p))

unsupported-FindsDamage : (bad : Bool) → FindsDamage (refuse_if bad unsupported)
unsupported-FindsDamage bad e p = inr (ground (arith, p))

ok-FindsDamage : {A : Type 0} (a : A) → FindsDamage (ok a)
ok-FindsDamage a e p = cc

if-FindsDamage :
    {A : Type 0} (b : Bool) (x y : Result A)
    → FindsDamage x
    → FindsDamage y
    → FindsDamage (if b then x else y)
if-FindsDamage true x y h k = h
if-FindsDamage false x y h k = k

err-FindsDamage : {A : Type 0} → FindsDamage {A = A} (err corruption)
err-FindsDamage e p = inl (ground (arith, p))

ruleset damage = (
  bind-FindsDamage, if-FindsDamage, err-FindsDamage, corruption-FindsDamage,
  unsupported-FindsDamage, ok-FindsDamage,
)

decode_slots-FindsDamage :
    (left index free_end : ℕ) (bytes : Bytes) (ranges : List Range) (slots : List (Option Bytes))
    → FindsDamage (decode_slots left index free_end bytes ranges slots)
unfolding decode_slots
decode_slots-FindsDamage zero index free_end bytes ranges slots = search damage
decode_slots-FindsDamage (suc left) index free_end bytes ranges slots =
    search (damage, decode_slots-FindsDamage left) depth 20 fits 5000

page_header-FindsDamage : (bytes : Bytes) → FindsDamage (Codec.check_header bytes)
unfolding Codec.check_header
page_header-FindsDamage bytes = search damage depth 20 fits 5000

check_slots-FindsDamage :
    (live free_end : ℕ) (ranges : List Range) (slots : List (Option Bytes))
    → FindsDamage (check_slots live free_end ranges slots)
unfolding check_slots
check_slots-FindsDamage live free_end ranges slots = search damage depth 20 fits 5000

from_bytes-FindsDamage : (bytes : Bytes) → FindsDamage (from_bytes bytes)
unfolding from_bytes
from_bytes-FindsDamage bytes =
    search (damage, page_header-FindsDamage, check_slots-FindsDamage, decode_slots-FindsDamage)
      depth 20 fits 5000

header-FindsDamage : (bytes : Bytes) → FindsDamage (check_header bytes)
unfolding check_header
header-FindsDamage bytes = search damage depth 20 fits 5000

decode_page_write-FindsDamage : (payload : Bytes) → FindsDamage (decode_page_write payload)
unfolding decode_page_write
decode_page_write-FindsDamage payload = search (damage, from_bytes-FindsDamage) depth 20 fits 5000

decode_operation-FindsDamage :
    (tag : ℕ) (payload : Bytes) → FindsDamage (decode_operation tag payload)
unfolding decode_operation
decode_operation-FindsDamage tag payload =
    search (damage, decode_page_write-FindsDamage) depth 20 fits 5000

decode_record-FindsDamage :
    (expected : ℕ) (encoded : Bytes) → FindsDamage (decode_record expected encoded)
unfolding decode_record
decode_record-FindsDamage expected encoded =
    search (damage, decode_operation-FindsDamage) depth 20 fits 5000

-- The records' numbers go up from a first one.
abbrev pub Numbered : ℕ → List LogRecord → Type 0
Numbered n [] = Unit {0}
Numbered n (r ∷ records) = (r.lsn ≡ n) × Numbered (suc n) records

Numbered-append :
    (n : ℕ) (records : List LogRecord) (r : LogRecord)
    → Numbered n records
    → r.lsn ≡ n + length records
    → Numbered n (records ++ r ∷ [])
Numbered-append n [] r h e = (omega (arith, e), tt)
Numbered-append n (s ∷ records) r (h, hs) e =
    (h, Numbered-append (suc n) records r hs (omega (arith, e)))

decode_record-lsn :
    (expected : ℕ) (encoded : Bytes) (r : LogRecord)
    → decode_record expected encoded ≡ ok r
    → r.lsn ≡ expected
unfolding decode_record
decode_record-lsn expected encoded r e =
    let (u, sum, e') =
      >>=-ok
        (refuse_if
          (not (read_word 4 28 encoded == crc32 encoded checksum_offset (checksum_offset + 4)))
          corruption)
        _ e in
    let (v, same, e'') =
      >>=-ok (refuse_if (not (read_word 8 12 encoded == expected)) corruption) _ e' in
    let (operation, decoded, e''') =
      >>=-ok (decode_operation (read_word 1 6 encoded) (drop header_size encoded)) _ e'' in
    ap record_lsn (sym e''')
    ∙ agreed (read_word 8 12 encoded)
        (refuse_if-ok (not (read_word 8 12 encoded == expected)) corruption same)
  where
    record_lsn : Result LogRecord → ℕ
    record_lsn (ok found) = found.lsn
    record_lsn (err kind) = 0

    agreed : (n : ℕ) → not (n == expected) ≡ false → n ≡ expected
    agreed n h = ground (arith, h)

-- The outcome of decoding from a position on
abbrev pub Outcome : Bool → ℕ → Result (List LogRecord × ℕ) → Type 0
Outcome torn end r =
    ((records : List LogRecord) × (position : ℕ) × (r ≡ ok (records, position))
      × Numbered 0 records
      × (position ≤ end)
      × (torn ≡ false → position ≡ end))
    ⊎ ((r ≡ err corruption) ⊎ (r ≡ err unsupported))

module _ (torn : Bool) (end : ℕ) where
  stop-Outcome :
      (records : List LogRecord) (position : ℕ)
      → Numbered 0 records
      → position ≤ end
      → Outcome torn end (if torn then ok (records, position) else err corruption)
  stop-Outcome records position n h = elim (Bool-cases torn) [
    | inl yes_torn ↦
        rw yes_torn (inl (records, position, refl, n, h, λ e. absurd (ground (arith, e))))
    | inr whole ↦ rw whole (inr (inl refl))
  ]

  if-Outcome :
      (b : Bool) (x y : Result (List LogRecord × ℕ))
      → Outcome torn end x
      → (b ≡ false → Outcome torn end y)
      → Outcome torn end (if b then x else y)
  if-Outcome true x y h k = h
  if-Outcome false x y h k = k refl

  bind-Outcome :
      {A : Type 0} (first : Result A) (rest : A → Result (List LogRecord × ℕ))
      → FindsDamage first
      → ((a : A) → first ≡ ok a → Outcome torn end (rest a))
      → Outcome torn end (first >>= rest)
  bind-Outcome (ok a) rest h k = k a refl
  bind-Outcome (err kind) rest h k = elim (h kind refl) [
    | inl e ↦ inr (inl (ap err e))
    | inr e ↦ inr (inr (ap err e))
  ]

decode_loop-Outcome :
    (fuel : ℕ) (torn : Bool) (bytes : Bytes) (records : List LogRecord) (position end : ℕ)
    → length bytes ≤ fuel
    → position + length bytes ≡ end
    → Numbered 0 records
    → Outcome torn end (decode_loop fuel torn bytes records position)
unfolding decode_loop
decode_loop-Outcome fuel torn [] records position end h e n =
    inl (records, position, refl, n, omega (arith, e), λ w. omega (arith, e))
decode_loop-Outcome zero torn (b ∷ rest) records position end h e n = absurd (omega (arith, h))
decode_loop-Outcome (suc fuel) torn (b ∷ rest) records position end h e n =
    let total = header_size + read_word 4 8 (b ∷ rest) in
    if-Outcome torn end (ltb (length (b ∷ rest)) header_size) _ _
      (stop-Outcome torn end records position n (omega (arith, e)))
      λ large.
        bind-Outcome torn end (check_header (b ∷ rest)) _ (header-FindsDamage (b ∷ rest))
          λ u checked.
            if-Outcome torn end (ltb (length (b ∷ rest)) total) _ _
              (stop-Outcome torn end records position n (omega (arith, e)))
              λ complete.
                bind-Outcome torn end (decode_record (length records) (take total (b ∷ rest))) _
                  (decode_record-FindsDamage (length records) (take total (b ∷ rest)))
                  λ r decoded.
                    decode_loop-Outcome fuel torn (drop total (b ∷ rest)) (records ++ r ∷ [])
                      (position + total) end
                      (spent (length rest) fuel (read_word 4 8 (b ∷ rest)) (drop total (b ∷ rest)) h
                        (length-drop total (b ∷ rest)))
                      (moved (suc (length rest)) total position end (drop total (b ∷ rest)) complete
                        e (length-drop total (b ∷ rest)))
                      (Numbered-append 0 records r n (
                        omega (
                          arith,
                          decode_record-lsn (length records) (take total (b ∷ rest)) r decoded,
                        )))
  where
    spent :
        (left fuel payload : ℕ) (after : Bytes)
        → suc left ≤ suc fuel
        → length after ≡ suc left - (36 + payload)
        → length after ≤ fuel
    spent left fuel payload after h same = omega (arith, h, same)

    moved :
        (left total position end : ℕ) (after : Bytes)
        → ltb left total ≡ false
        → position + left ≡ end
        → length after ≡ left - total
        → position + total + length after ≡ end
    moved left total position end after complete e same = ground (arith, complete, e, same)

-- Decoding any bytes ends, with its fuel: in records numbered from zero on, up to a position within the
-- bytes, which is their end unless a torn tail is tolerated, or in an error that says corruption or
-- an unsupported version.
pub decode_records-Outcome :
    (bytes : Bytes) (torn : Bool) → Outcome torn (length bytes) (decode_records bytes torn)
unfolding decode_records
decode_records-Outcome bytes torn =
    decode_loop-Outcome (length bytes) torn bytes [] 0 (length bytes) (omega arith) (omega arith) tt
