-- ===== src/Core/Value.antt =====
-- crates/nova-core/src/nova_value.rs, document.rs and nova_id.rs: the values of the database.
use novabase.Common.{
  ℕ, suc, Bool, true, false, ◌&&◌, ◌||◌, Option, none, some, List, [], ◌∷◌, ◌++◌, length, take,
  drop, ltb, ◌==◌, if◌then◌else◌,
}
use novabase.Common.Int.{ℤ}
use novabase.Common.Result.{Result, ok, err, invalid_argument}
use novabase.Storage.Bytes.{Bytes, to_be_bytes, from_be_bytes}

-- `[u8]` in lexicographic order
abbrev pub bytes_lt : Bytes → Bytes → Bool
bytes_lt bs [] = false
bytes_lt [] (c ∷ cs) = true
bytes_lt (b ∷ bs) (c ∷ cs) = ltb b c || (b == c && bytes_lt bs cs)

abbrev pub same_bytes : Bytes → Bytes → Bool
same_bytes [] [] = true
same_bytes [] (c ∷ cs) = false
same_bytes (b ∷ bs) [] = false
same_bytes (b ∷ bs) (c ∷ cs) = b == c && same_bytes bs cs

-- A list of values, and a map of fields in the order of its keys, are types of the block.
mutual
  pub data NovaValue : Type 0 where
    null : NovaValue
    boolean : Bool → NovaValue
    int64 : ℤ → NovaValue
    float64 : ℕ → NovaValue
    string : Bytes → NovaValue
    array : Values → NovaValue
    document : Document → NovaValue
    timestamp : ℤ → NovaValue
    nova_id : Bytes → NovaValue

  pub data Values : Type 0 where
    no_values : Values
    value : NovaValue → Values → Values

  pub data Document : Type 0 where
    with_id : Bytes → Fields → Document

  pub data Fields : Type 0 where
    no_fields : Fields
    field : Bytes → NovaValue → Fields → Fields

-- `values.len()`, `document.len()`
unfoldable pub count_values : Values → ℕ
count_values no_values = 0
count_values (value v vs) = suc (count_values vs)

unfoldable pub count_fields : Fields → ℕ
count_fields no_fields = 0
count_fields (field k v fs) = suc (count_fields fs)

-- `BTreeMap::get`
unfoldable pub get_field : Bytes → Fields → Option NovaValue
get_field k no_fields = none
get_field k (field j v fs) = if same_bytes j k then some v else get_field k fs

-- `BTreeMap::insert`, on the fields in order
unfoldable pub insert_field : Bytes → NovaValue → Fields → Fields
insert_field k v no_fields = field k v no_fields
insert_field k v (field j w fs) =
    let rest = insert_field k v fs in
    if same_bytes j k
    then field j v fs
    else if bytes_lt k j
    then field k v (field j w fs)
    else field j w rest

-- `BTreeMap::remove`
unfoldable pub remove_field : Bytes → Fields → Fields
remove_field k no_fields = no_fields
remove_field k (field j v fs) =
    let rest = remove_field k fs in if same_bytes j k then fs else field j v rest

abbrev pub id_of : Document → Bytes
id_of (with_id id fs) = id

abbrev pub fields_of : Document → Fields
fields_of (with_id id fs) = fs

-- `Document::new`, `Document::insert`, `Document::get`, `Document::remove`, `Document::len`
unfoldable pub new_document : Bytes → Document
new_document id = with_id id no_fields

unfoldable pub insert : Bytes → NovaValue → Document → Option NovaValue × Document
unfolding insert_field get_field
insert k v (with_id id fs) = (get_field k fs, with_id id (insert_field k v fs))

unfoldable pub get : Bytes → Document → Option NovaValue
unfolding get_field
get k (with_id id fs) = get_field k fs

unfoldable pub remove : Bytes → Document → Option NovaValue × Document
unfolding remove_field get_field
remove k (with_id id fs) = (get_field k fs, with_id id (remove_field k fs))

unfoldable pub len : Document → ℕ
unfolding count_fields
len (with_id id fs) = count_fields fs

abbrev pub as_document : NovaValue → Option Document
as_document (document d) = some d
as_document _ = none

-- the rounds of `Document::lookup_parts` after the first
unfoldable pub lookup_from : Option NovaValue → List Bytes → Option NovaValue
unfolding get
lookup_from found [] = found
lookup_from none (part ∷ parts) = lookup_from none parts
lookup_from (some v) (part ∷ parts) = elim (as_document v) [
  | none ↦ none
  | some d ↦ lookup_from (get part d) parts
]

-- `Document::lookup_parts`
unfoldable pub lookup_parts : List Bytes → Document → Option NovaValue
unfolding lookup_from get
lookup_parts [] d = none
lookup_parts (part ∷ parts) d = lookup_from (get part d) parts

-- `NovaId::new`, `NovaId::from_bytes`, `NovaId::timestamp_ms`, `NovaId::random_half`
unfoldable pub new_id : ℕ → Bytes → Bytes
new_id epoch_millis random = to_be_bytes 8 epoch_millis ++ random

unfoldable pub id_from_bytes : Bytes → Result Bytes
id_from_bytes bytes = if length bytes == 16 then ok bytes else err invalid_argument

unfoldable pub timestamp_ms : Bytes → ℕ
timestamp_ms id = from_be_bytes (take 8 id)

unfoldable pub random_half : Bytes → Bytes
random_half id = drop 8 id
