-- ===== src/Buffer.antt =====
-- crates/nova-buffer/src/lib.rs: the bounded, write-back page buffer over the page manager. The
-- counters wrap at 64 bits, as in a release build; `usize` has 64 bits.
pub mod Victim
pub mod Bound
pub mod Capacity
pub mod View
pub mod Calls
pub mod Flush
use novabase.Common.{
  ℕ, ◌+◌, ◌-◌, ◌%◌, ◌^◌, Bool, true, false, ◌&&◌, ◌||◌, Option, none, some, List, [], ◌∷◌, length,
  ltb, ◌==◌, if◌then◌else◌,
}
use novabase.Common.Key.{nat_key}
use novabase.Common.Map
use novabase.Common.Map.{Map}
use novabase.Common.Result.{
  NovaError, Result, ok, err, invalid_argument, invalid_state, internal, Method, ◌>>=◌, ◌>>◌,
  return, fail, gets, modify,
}
use novabase.Storage.File.{FileSystem}
use novabase.Storage.Page.{Page}
use novabase.Storage.Manager
use novabase.Storage.Manager.{PageManager}

pub record Frame : Type 0 where
  pub page : Page
  pub dirty : Bool
  pub pins : ℕ
  pub last_used : ℕ

pub record BufferStats : Type 0 where
  pub hits : ℕ
  pub misses : ℕ
  pub evictions : ℕ
  pub writes : ℕ

abbrev pub Frames : Type 0
Frames = Map ℕ Frame

-- `+= 1` and `wrapping_add(1)` on a `u64`
abbrev pub bump : ℕ → ℕ
bump n = (n + 1) % 2 ^ 64

-- `(frame.last_used, id)`, compared
abbrev pub comes_first : ℕ × Frame → ℕ × Frame → Bool
comes_first (i, f) (j, g) = ltb f.last_used g.last_used || (f.last_used == g.last_used && ltb i j)

-- of the two unpinned frames the one to evict
abbrev pub older : ℕ × Frame → Option (ℕ × Frame) → ℕ × Frame
older x none = x
older x (some y) = if comes_first y x then y else x

-- `.filter(|(_, frame)| frame.pins == 0).min_by_key(..)`
unfoldable pub victim : Frames → Option (ℕ × Frame)
victim [] = none
victim ((id, f) ∷ frames) =
    let later = victim frames in if f.pins == 0 then some (older (id, f) later) else later

module _ (fs : FileSystem) where
  open fs use {File}

  pub record BufferPool : Type 0 where
    pub pages : PageManager fs
    pub frames : Frames
    pub capacity : ℕ
    pub clock : ℕ
    pub stats : BufferStats

  -- A call on the page manager.
  unfoldable pub on_pages : {A : Type 0} → Method (PageManager fs) A → Method BufferPool A
  on_pages m s = let (r, p) = m s.pages in (r, record s { pages = p })

  unfoldable pub with_pages : Result (PageManager fs) → ℕ → Result BufferPool
  with_pages (err e) capacity = err e
  with_pages (ok pages) capacity = ok (record {
    pages = pages;
    frames = [];
    capacity = capacity;
    clock = 0;
    stats = record { hits = 0; misses = 0; evictions = 0; writes = 0 };
  })

  -- `BufferPool::open`, from the outcome of opening the file
  unfoldable pub open_pool : Result File → ℕ → Result BufferPool
  unfolding with_pages
  open_pool f capacity =
      if capacity == 0
      then err invalid_argument
      else with_pages (Manager.open_manager fs f) capacity

  -- `BufferPool::len`, `BufferPool::is_empty`
  unfoldable pub len : BufferPool → ℕ
  len s = length s.frames

  unfoldable pub is_empty : BufferPool → Bool
  is_empty s = length s.frames == 0

  unfoldable pub put_frame : ℕ → Frame → Method BufferPool (Unit {0})
  put_frame id f = modify (λ s. record s { frames = Map.insert id f s.frames })

  unfoldable pub count_write : Method BufferPool (Unit {0})
  count_write = modify (λ s. record s { stats = record s.stats { writes = bump s.stats.writes } })

  -- `if frame.dirty { self.pages.write(&frame.page)?; self.stats.writes += 1; }`
  unfoldable pub write_back : Frame → Method BufferPool (Unit {0})
  unfolding on_pages count_write
  write_back f = if f.dirty then (on_pages (Manager.write fs f.page) >> count_write) else return tt

  -- What `evict_one` does with the frame it has taken out.
  unfoldable pub let_go : Frame → Method BufferPool (Unit {0})
  unfolding write_back
  let_go f = do
    write_back f
    modify (λ s. record s { stats = record s.stats { evictions = bump s.stats.evictions } })

  -- `evict_one`
  unfoldable pub evict_one : Method BufferPool (Unit {0})
  unfolding let_go
  evict_one s = elim (victim s.frames) [
    | none ↦ (err invalid_state, s)
    | some (id, f) ↦ let_go f (record s { frames = Map.remove id s.frames })
  ]

  -- `if self.frames.len() == self.capacity { self.evict_one()?; }`
  unfoldable pub make_room : Method BufferPool (Unit {0})
  unfolding evict_one
  make_room s = if length s.frames == s.capacity then evict_one s else (ok tt, s)

  -- `load` of a page that has a frame, and of one that has none
  unfoldable pub hit : ℕ → Frame → Method BufferPool (Unit {0})
  hit id f = modify (λ s. record s {
    frames = Map.insert id (record f { last_used = s.clock }) s.frames;
    stats = record s.stats { hits = bump s.stats.hits };
  })

  unfoldable pub miss : ℕ → Method BufferPool (Unit {0})
  unfolding make_room on_pages put_frame
  miss id = do
    modify (λ s. record s { stats = record s.stats { misses = bump s.stats.misses } })
    make_room
    page ← on_pages (Manager.read fs id)
    now ← gets (λ s. s.clock)
    put_frame id (record { page = page; dirty = false; pins = 0; last_used = now })

  unfoldable pub tick : BufferPool → BufferPool
  tick s = record s { clock = bump s.clock }

  -- `load`
  unfoldable pub load : ℕ → Method BufferPool (Unit {0})
  unfolding hit miss tick
  load id s = elim (Map.lookup id s.frames) [ none ↦ miss id (tick s) | some f ↦ hit id f (tick s) ]

  -- `frames.get(&id).ok_or_else(..)`
  unfoldable pub framed : ℕ → NovaError → Method BufferPool Frame
  framed id e s = elim (Map.lookup id s.frames) [ none ↦ (err e, s) | some f ↦ (ok f, s) ]

  -- `allocate`
  unfoldable pub allocate : Method BufferPool ℕ
  unfolding make_room on_pages load
  allocate = do make_room; id ← on_pages (Manager.allocate fs); load id; return id

  -- `get`
  unfoldable pub get : ℕ → Method BufferPool Page
  unfolding load framed
  get id = do load id; f ← framed id internal; return f.page

  -- `get_mut`, with what the caller writes through the reference
  unfoldable pub get_mut : ℕ → (Page → Page) → Method BufferPool (Unit {0})
  unfolding load framed put_frame
  get_mut id change = do
    load id
    f ← framed id internal
    put_frame id (record f { page = change f.page; dirty = true })

  -- `pin`
  unfoldable pub pin : ℕ → Method BufferPool (Unit {0})
  unfolding load framed put_frame
  pin id = do
    load id
    f ← framed id internal
    if ltb (f.pins + 1) (2 ^ 64)
        then put_frame id (record f { pins = f.pins + 1 })
        else fail invalid_state

  -- `unpin`
  unfoldable pub unpin : ℕ → Method BufferPool (Unit {0})
  unfolding framed put_frame
  unpin id = do
    f ← framed id invalid_state
    if f.pins == 0 then fail invalid_state else put_frame id (record f { pins = f.pins - 1 })

  unfoldable pub flush_frame : ℕ → Frame → Method BufferPool (Unit {0})
  unfolding on_pages put_frame count_write
  flush_frame id f =
      if f.dirty
      then (on_pages (Manager.write fs f.page)
          >> (put_frame id (record f { dirty = false }) >> count_write))
      else return tt

  -- the loop of `flush_all` over the frames that are left
  unfoldable pub flush_frames : Frames → Method BufferPool (Unit {0})
  unfolding flush_frame
  flush_frames [] = return tt
  flush_frames ((id, f) ∷ frames) = flush_frame id f >> flush_frames frames

  -- `flush_all`
  unfoldable pub flush_all : Method BufferPool (Unit {0})
  unfolding flush_frames on_pages
  flush_all s = (flush_frames s.frames >> on_pages (Manager.sync fs)) s
