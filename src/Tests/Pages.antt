-- ===== src/Tests/Pages.antt =====
-- Pages and the page file, at concrete pages.
use novabase.Common.{
  ℕ, ◌+◌, ◌<◌, ◌≤◌, ◌≡◌, ◌⊎◌, refl, none, some, [], ◌∷◌, length, replicate, length-replicate, arith,
  ◌==◌, if◌then◌else◌,
}
use novabase.Common.Result.{ok, err, storage, not_found}
use novabase.Storage.Bytes.{Bytes}
use novabase.Storage.Page.{
  Page, page_size, new, get, insert, remove, free_space, payload_size, slot_id, position_free,
  fill_slot, take_slot,
}
use novabase.Storage.Page.Codec.{to_bytes, from_bytes}
use novabase.Storage.Page.Space.{Fits, used, cost, insert_fits, insert_overfills}
use novabase.Storage.Page.Laws.{get-insert, get-remove}
use novabase.Storage.Page.RoundTrip.{from_bytes-to_bytes}
use novabase.Storage.Manager
use novabase.Storage.Manager.{PageManager, page_offset}
use novabase.Storage.Manager.Laws.{IsAligned, stored}
use novabase.Storage.Manager.Allocates.{stored-allocate}
use novabase.Tests.Memory.{memory}

abbrev sample : Page
sample = record { id = 7; slots = some (1 ∷ 2 ∷ 3 ∷ []) ∷ none ∷ [] }

sample-Fits : Fits sample
unfolding used payload_size
sample-Fits = omega arith

from_bytes-to_bytes_example :
    (bs : Bytes) × (to_bytes sample ≡ ok bs) × (length bs ≡ page_size) × (from_bytes bs ≡ ok sample)
from_bytes-to_bytes_example = from_bytes-to_bytes sample sample-Fits (omega arith)

abbrev filled : Page
filled = record { id = 7; slots = some (1 ∷ 2 ∷ 3 ∷ []) ∷ some (8 ∷ []) ∷ [] }

insert-sample : insert (8 ∷ []) sample ≡ (ok 1, filled)
unfolding insert free_space payload_size position_free slot_id fill_slot
insert-sample = refl

get-insert_example :
    (get 1 sample ≡ none)
    × ((t : ℕ) → get t filled ≡ (if 1 == t then some (8 ∷ []) else get t sample))
    × (filled.id ≡ 7)
get-insert_example = get-insert (8 ∷ []) sample 1 filled insert-sample

get-remove_example :
    ((get 0 sample ≡ none) × (remove 0 sample ≡ (err not_found, sample)))
    ⊎ ((r : Bytes) × (q : Page) × (get 0 sample ≡ some r)
        × (remove 0 sample ≡ (ok r, q))
        × ((t : ℕ) → get t q ≡ (if 0 == t then none else get t sample))
        × (q.id ≡ 7)
        × (length q.slots ≡ 2))
get-remove_example = get-remove 0 sample

insert_fits_example :
    ((free_space sample < 1) × (insert (8 ∷ []) sample ≡ (err storage, sample)))
    ⊎ ((s : ℕ) × (q : Page) × (1 ≤ free_space sample)
        × (insert (8 ∷ []) sample ≡ (ok s, q))
        × (used q ≡ used sample + cost (8 ∷ []) sample)
        × (0 < 1 → Fits q))
insert_fits_example = insert_fits (8 ∷ []) sample sample-Fits

abbrev tight : Page
tight = record { id = 0; slots = some (replicate 4058 0) ∷ [] }

tight-used : used tight ≡ 4094
unfolding used payload_size
tight-used = omega (arith, length-replicate {A = ℕ} 4058 0)

insert_overfills_example : (s : ℕ) × (q : Page) × (insert [] tight ≡ (ok s, q)) × ¬ Fits q
insert_overfills_example =
    insert_overfills tight (omega (arith, tight-used)) refl (omega (arith, tight-used))

abbrev emptied : Page
emptied = record { id = 7; slots = none ∷ none ∷ [] }

remove-sample : remove 0 sample ≡ (ok (1 ∷ 2 ∷ 3 ∷ []), emptied)
unfolding remove get take_slot
remove-sample = refl

abbrev empty_file : PageManager memory
empty_file = record { file = record { contents = []; position = 0 }; page_count = 0 }

new-Fits : Fits (new 0)
unfolding used payload_size new
new-Fits = omega arith

allocate_first : Manager.allocate memory empty_file ≡ (ok 0, (Manager.allocate memory empty_file).1)
unfolding Manager.allocate Manager.on_file Manager.bump_count
allocate_first =
    let (bs, made, size, back) = from_bytes-to_bytes (new 0) new-Fits (unfold new in omega arith) in
    rw made refl

stored-allocate_example :
    IsAligned memory (Manager.allocate memory empty_file).1
    × (0 ≡ empty_file.page_count)
    × ((Manager.allocate memory empty_file).1.page_count ≡ 0 + 1)
    × (stored memory (Manager.allocate memory empty_file).1 0 ≡ ok (new 0))
    × ((j : ℕ)
        → j < 0
        → stored memory (Manager.allocate memory empty_file).1 j ≡ stored memory empty_file j)
stored-allocate_example =
    stored-allocate memory empty_file (Manager.allocate memory empty_file).1 0
      (record { aligned = refl }) allocate_first
