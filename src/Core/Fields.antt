-- ===== src/Core/Fields.antt =====
-- crates/nova-core/src/document.rs: the fields of a document are in the order of their keys, and a
-- key that is above all of them is put at the end.
use novabase.Common.{◌≡◌, refl, ap, true, false, none, [], ◌∷◌, arith}
use novabase.Storage.Bytes.{Bytes}
use novabase.Core.Value.{
  NovaValue, Fields, no_fields, field, bytes_lt, same_bytes, get_field, insert_field,
}

-- Every key is above `k`.
abbrev pub Above : Bytes → Fields → Type 0
Above k no_fields = Unit {0}
Above k (field j v fs) = (bytes_lt k j ≡ true) × Above k fs

-- Every key is below `k`.
abbrev pub Below : Bytes → Fields → Type 0
Below k no_fields = Unit {0}
Below k (field j v fs) = (bytes_lt j k ≡ true) × Below k fs

-- Every key of `fs` is above every key of `done`.
abbrev pub Before : Fields → Fields → Type 0
Before done no_fields = Unit {0}
Before done (field k v fs) = Below k done × Before done fs

abbrev pub append : Fields → Fields → Fields
append no_fields fs = fs
append (field k v done) fs = field k v (append done fs)

bytes_lt-ne : (j k : Bytes) → bytes_lt j k ≡ true → same_bytes j k ≡ false
bytes_lt-ne [] [] h = ground (arith, h)
bytes_lt-ne [] (c ∷ cs) h = refl
bytes_lt-ne (b ∷ bs) [] h = refl
bytes_lt-ne (b ∷ bs) (c ∷ cs) h = ground (arith, h, bytes_lt-ne bs cs)

pub same_bytes-eq : (xs ys : Bytes) → same_bytes xs ys ≡ true → xs ≡ ys
same_bytes-eq [] [] h = refl
same_bytes-eq [] (y ∷ ys) h = cc
same_bytes-eq (x ∷ xs) [] h = cc
same_bytes-eq (x ∷ xs) (y ∷ ys) h = ground (arith, h, same_bytes-eq xs ys)

pub bytes_lt-asym : (j k : Bytes) → bytes_lt j k ≡ true → bytes_lt k j ≡ false
bytes_lt-asym [] [] h = refl
bytes_lt-asym [] (c ∷ cs) h = refl
bytes_lt-asym (b ∷ bs) [] h = ground (arith, h)
bytes_lt-asym (b ∷ bs) (c ∷ cs) h = ground (arith, h, bytes_lt-asym bs cs)

pub get_field-Below : (k : Bytes) (fs : Fields) → Below k fs → get_field k fs ≡ none
unfolding get_field
get_field-Below k no_fields h = refl
get_field-Below k (field j v fs) (h, hs) = rw (bytes_lt-ne j k h) (get_field-Below k fs hs)

pub insert_field-Below :
    (k : Bytes) (v : NovaValue) (fs : Fields)
    → Below k fs
    → insert_field k v fs ≡ append fs (field k v no_fields)
unfolding insert_field
insert_field-Below k v no_fields h = refl
insert_field-Below k v (field j w fs) (h, hs) =
    rw (bytes_lt-ne j k h, bytes_lt-asym j k h) (ap (field j w) (insert_field-Below k v fs hs))

pub append_assoc :
    (done : Fields) (k : Bytes) (v : NovaValue) (fs : Fields)
    → append (append done (field k v no_fields)) fs ≡ append done (field k v fs)
append_assoc no_fields k v fs = refl
append_assoc (field j w done) k v fs = ap (field j w) (append_assoc done k v fs)

Below-append :
    (j k : Bytes) (v : NovaValue) (done : Fields)
    → Below j done
    → bytes_lt k j ≡ true
    → Below j (append done (field k v no_fields))
Below-append j k v no_fields h lt = (lt, tt)
Below-append j k v (field i w done) (h, hs) lt = (h, Below-append j k v done hs lt)

pub Before-append :
    (done : Fields) (k : Bytes) (v : NovaValue) (fs : Fields)
    → Before done fs
    → Above k fs
    → Before (append done (field k v no_fields)) fs
Before-append done k v no_fields h a = tt
Before-append done k v (field j w fs) (h, hs) (lt, a) =
    (Below-append j k v done h lt, Before-append done k v fs hs a)

pub Before-start : (fs : Fields) → Before no_fields fs
Before-start no_fields = tt
Before-start (field k v fs) = (tt, Before-start fs)

pub append-no_fields : (done : Fields) → append done no_fields ≡ done
append-no_fields no_fields = refl
append-no_fields (field k v done) = ap (field k v) (append-no_fields done)
