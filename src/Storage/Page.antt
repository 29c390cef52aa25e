-- ===== src/Storage/Page.antt =====
-- crates/nova-storage/src/page.rs: the slotted page in memory. Identifiers are plain numbers.
pub mod Laws
pub mod Codec
pub mod Layout
pub mod Reading
pub mod Header
pub mod RoundTrip
pub mod Encodable
pub mod Accepted
pub mod Space
use novabase.Common.{
  ℕ, suc, ◌+◌, ◌-◌, ◌*◌, Option, none, some, Bool, true, false, List, [], ◌∷◌, ◌++◌, length,
  get_elem?, set, filter, any, ltb, ◌==◌, if◌then◌else◌,
}
use novabase.Common.Result.{Result, ok, err, storage, not_found, Method, ◌>>=◌, lift, fail, return}
use novabase.Storage.Bytes.{Bytes}

abbrev pub page_size : ℕ
page_size = 4096

abbrev pub page_header_size : ℕ
page_header_size = 32

abbrev pub slot_size : ℕ
slot_size = 4

pub record Page : Type 0 where
  pub id : ℕ
  pub slots : List (Option Bytes)

abbrev pub is_some : Option Bytes → Bool
is_some none = false
is_some (some r) = true

abbrev pub is_none : Option Bytes → Bool
is_none none = true
is_none (some r) = false

-- `Page::new`
unfoldable pub new : ℕ → Page
new id = record { id = id; slots = [] }

-- `Page::len`
unfoldable pub len : Page → ℕ
len p = length (filter is_some p.slots)

-- `Page::is_empty`
unfoldable pub is_empty : Page → Bool
unfolding len
is_empty p = len p == 0

-- `Page::slot_count`
unfoldable pub slot_count : Page → ℕ
slot_count p = length p.slots

-- a stored slot that is outside the directory or deleted holds no record
abbrev pub join : Option (Option Bytes) → Option Bytes
join none = none
join (some o) = o

-- `Page::get`
unfoldable pub get : ℕ → Page → Option Bytes
get slot p = join (get_elem? p.slots slot)

-- `Page::records`, from the slot `index` on; `u16::try_from` drops what stands beyond
unfoldable pub records_from : ℕ → List (Option Bytes) → List (ℕ × Bytes)
records_from index [] = []
records_from index (none ∷ slots) = records_from (suc index) slots
records_from index (some r ∷ slots) =
    let rest = records_from (suc index) slots in if ltb index 65536 then (index, r) ∷ rest else rest

unfoldable pub records : Page → List (ℕ × Bytes)
unfolding records_from
records p = records_from 0 p.slots

unfoldable pub payload_size : List (Option Bytes) → ℕ
payload_size [] = 0
payload_size (none ∷ slots) = payload_size slots
payload_size (some r ∷ slots) = length r + payload_size slots

-- `Page::free_space`; subtraction on ℕ saturates, as the source's does
unfoldable pub free_space : Page → ℕ
unfolding payload_size
free_space p =
    let used = page_header_size + length p.slots * slot_size + payload_size p.slots in
    page_size - used - (if any is_none p.slots then 0 else slot_size)

-- `self.slots.iter().position(Option::is_none)`
unfoldable pub position_free : List (Option Bytes) → Option ℕ
position_free [] = none
position_free (none ∷ slots) = some 0
position_free (some r ∷ slots) = elim (position_free slots) [ none ↦ none | some i ↦ some (suc i) ]

unfoldable pub slot_id : ℕ → Result ℕ
slot_id index = if ltb index 65536 then ok index else err storage

unfoldable pub fill_slot : Bytes → Option ℕ → Page → Result ℕ × Page
unfolding slot_id
fill_slot bytes (some index) p =
    (slot_id index, record p { slots = set p.slots index (some bytes) })
fill_slot bytes none p =
    (do
      id ← lift (slot_id (length p.slots))
      (λ q. (ok id, record q { slots = q.slots ++ some bytes ∷ [] })))
      p

-- `Page::insert`
unfoldable pub insert : Bytes → Method Page ℕ
unfolding fill_slot free_space position_free
insert bytes p =
    if ltb (free_space p) (length bytes)
    then (err storage, p)
    else fill_slot bytes (position_free p.slots) p

unfoldable pub take_slot : ℕ → Option Bytes → Page → Result Bytes × Page
take_slot slot none p = (err not_found, p)
take_slot slot (some r) p = (ok r, record p { slots = set p.slots slot none })

-- `Page::remove`
unfoldable pub remove : ℕ → Method Page Bytes
unfolding take_slot get
remove slot p = take_slot slot (get slot p) p
