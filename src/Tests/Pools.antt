-- ===== src/Tests/Pools.antt =====
-- The page buffer over a page file in memory.
use novabase.Common.{
  ℕ, ◌<◌, ◌≤◌, ◌≡◌, ◌≢◌, refl, true, false, none, some, [], ◌∷◌, ◌++◌, replicate, arith, ◌==◌,
  ==_iff, if◌then◌else◌,
}
use novabase.Common.Key.{nat_key}
use novabase.Common.Map
use novabase.Common.Result.{ok}
use novabase.Storage.Page.{Page, new, payload_size}
use novabase.Storage.Page.Space.{Fits, used}
use novabase.Storage.Page.RoundTrip.{from_bytes-to_bytes}
use novabase.Storage.Manager
use novabase.Storage.Manager.{PageManager, page_offset}
use novabase.Storage.Manager.Laws.{IsAligned, stored, stored-write}
use novabase.Buffer
use novabase.Buffer.{Frame, BufferPool, comes_first}
use novabase.Buffer.View.{view, IsCoherent, Keeps}
use novabase.Buffer.Calls.{get-view, get_mut-view}
use novabase.Buffer.View.{evict_one-Keeps}
use novabase.Buffer.Victim.{victim-oldest}
use novabase.Buffer.Capacity.{never_overfull, run, allocates, gets_page, pins, flushes}
use novabase.Buffer.Flush.{flush_all-stored}
use novabase.Tests.Memory.{memory}

abbrev note : Page
note = record { id = 0; slots = some (1 ∷ 2 ∷ []) ∷ [] }

abbrev file : PageManager memory
file = record { file = record { contents = replicate 4096 0; position = 0 }; page_count = 1 }

abbrev pool : BufferPool memory
pool = record {
  pages = file;
  frames = (0, record { page = note; dirty = true; pins = 0; last_used = 3 }) ∷ [];
  capacity = 1;
  clock = 3;
  stats = record { hits = 0; misses = 1; evictions = 0; writes = 0 };
}

file-IsAligned : IsAligned memory file
unfolding replicate
file-IsAligned = record { aligned = refl }

pool-IsCoherent : IsCoherent memory pool
unfolding Map.lookup
pool-IsCoherent = record {
  aligned = file-IsAligned;
  unique = (refl, tt);
  own = λ id f e. (ground (arith, e, ==_iff 0 id), ground (arith, e, ==_iff 0 id));
  clean = λ id f e tidy. ground (arith, e, tidy);
}

note-Fits : Fits note
unfolding used payload_size
note-Fits = omega arith

write-note : Manager.write memory note file ≡ (ok tt, (Manager.write memory note file).1)
unfolding Manager.write Manager.on_file Manager.ensure_allocated page_offset
write-note =
    let (bs, made, size, back) = from_bytes-to_bytes note note-Fits (omega arith) in rw made refl

stored-write_example :
    IsAligned memory (Manager.write memory note file).1
    × ((Manager.write memory note file).1.page_count ≡ 1)
    × (0 < 1)
    × ((j : ℕ)
        → stored memory (Manager.write memory note file).1 j
          ≡ (if 0 == j then ok note else stored memory file j))
stored-write_example =
    stored-write memory note file (Manager.write memory note file).1 tt file-IsAligned write-note

flush_pool : Buffer.flush_all memory pool ≡ (ok tt, (Buffer.flush_all memory pool).1)
unfolding Buffer.flush_all Buffer.flush_frames Buffer.flush_frame Buffer.put_frame
    Buffer.count_write Buffer.on_pages Manager.sync Manager.on_file
flush_pool = rw write-note refl

flush_all-stored_example :
    Keeps memory pool (Buffer.flush_all memory pool).1
    × ((id : ℕ) (f : Frame)
        → Map.lookup id (Buffer.flush_all memory pool).1.frames ≡ some f
        → f.dirty ≡ false)
    × ((id : ℕ) → stored memory (Buffer.flush_all memory pool).1.pages id ≡ view memory pool id)
flush_all-stored_example =
    flush_all-stored memory pool (Buffer.flush_all memory pool).1 tt pool-IsCoherent flush_pool

get-pool : Buffer.get memory 0 pool ≡ (ok note, (Buffer.get memory 0 pool).1)
unfolding Buffer.get Buffer.load Buffer.hit Buffer.tick Buffer.framed Map.lookup Map.insert
    Map.replace
get-pool = refl

get-view_example :
    (view memory pool 0 ≡ ok note) × (note.id ≡ 0) × Keeps memory pool (Buffer.get memory 0 pool).1
get-view_example = get-view memory 0 pool (Buffer.get memory 0 pool).1 note pool-IsCoherent get-pool

-- `insert` through the reference that `get_mut` gives
abbrev with_record : Page → Page
with_record p = record p { slots = p.slots ++ some (9 ∷ []) ∷ [] }

change_pool :
    Buffer.get_mut memory 0 with_record pool ≡ (ok tt, (Buffer.get_mut memory 0 with_record pool).1)
unfolding Buffer.get_mut Buffer.load Buffer.hit Buffer.tick Buffer.framed Buffer.put_frame
    Map.lookup Map.insert Map.replace
change_pool = refl

get_mut-view_example :
    IsCoherent memory (Buffer.get_mut memory 0 with_record pool).1
    × ((p : Page)
        → view memory pool 0 ≡ ok p
        → view memory (Buffer.get_mut memory 0 with_record pool).1 0 ≡ ok (with_record p))
    × ((j : ℕ)
        → 0 ≢ j
        → view memory (Buffer.get_mut memory 0 with_record pool).1 j ≡ view memory pool j)
get_mut-view_example =
    get_mut-view memory 0 with_record pool (Buffer.get_mut memory 0 with_record pool).1 tt
      pool-IsCoherent (λ p. refl) change_pool

evict_pool : Buffer.evict_one memory pool ≡ (ok tt, (Buffer.evict_one memory pool).1)
unfolding Buffer.evict_one Buffer.victim Buffer.let_go Buffer.write_back Buffer.count_write
    Buffer.on_pages
evict_pool = rw write-note refl

evict_one-Keeps_example :
    Keeps memory pool (Buffer.evict_one memory pool).1
    × ((j : ℕ)
        → Map.lookup j pool.frames ≡ none
        → Map.lookup j (Buffer.evict_one memory pool).1.frames ≡ none)
evict_one-Keeps_example =
    evict_one-Keeps memory pool (Buffer.evict_one memory pool).1 tt pool-IsCoherent evict_pool

empty_pool : BufferPool memory
empty_pool = record {
  pages = record { file = record { contents = []; position = 0 }; page_count = 0 };
  frames = [];
  capacity = 2;
  clock = 0;
  stats = record { hits = 0; misses = 0; evictions = 0; writes = 0 };
}

open_pool_two :
    Buffer.open_pool memory (ok (record { contents = []; position = 0 })) 2 ≡ ok empty_pool
unfolding Buffer.open_pool Buffer.with_pages Manager.open_manager Manager.opened empty_pool
open_pool_two = refl

never_overfull_example :
    (0 < 2)
    × (Buffer.len memory (
          run memory
            (allocates ∷ allocates ∷ gets_page 0 ∷ pins 1 ∷ allocates ∷ flushes ∷ [])
            empty_pool)
        ≤ 2)
    × ((run memory
          (allocates ∷ allocates ∷ gets_page 0 ∷ pins 1 ∷ allocates ∷ flushes ∷ [])
          empty_pool).capacity
        ≡ 2)
never_overfull_example =
    never_overfull memory (ok (record { contents = []; position = 0 })) 2 empty_pool
      (allocates ∷ allocates ∷ gets_page 0 ∷ pins 1 ∷ allocates ∷ flushes ∷ []) open_pool_two

abbrev two_frames : Buffer.Frames
two_frames =
    (0, record { page = note; dirty = true; pins = 0; last_used = 3 })
    ∷ (4, record { page = new 4; dirty = false; pins = 0; last_used = 2 })
    ∷ (5, record { page = new 5; dirty = false; pins = 1; last_used = 1 })
    ∷ []

victim-oldest_example :
    (Map.lookup 4 two_frames
      ≡ some (record { page = new 4; dirty = false; pins = 0; last_used = 2 }))
    × (◌≡◌ {A = ℕ} 0 0)
    × ((j : ℕ) (g : Frame)
        → Map.lookup j two_frames ≡ some g
        → g.pins ≡ 0
        → (2 ≤ g.last_used) × (2 ≡ g.last_used → 4 ≤ j))
victim-oldest_example =
    victim-oldest two_frames 4 (record { page = new 4; dirty = false; pins = 0; last_used = 2 })
      (unfold Map.lookup in (refl, (refl, (refl, tt)))) (unfold Buffer.victim in refl)
