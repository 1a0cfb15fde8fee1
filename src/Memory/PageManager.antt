-- ===== src/Memory/PageManager.antt =====
-- kernel/memory/pagemanager.cpp: the allocator of physical page frames.
-- The frame map is memory that follows no bounds check of its own, so it is a function: `frames i`
-- is the byte at frame_map + i, also where i lies past the map's end.
mod Tests
pub mod Alloc
pub mod Boot
pub mod Continuous
use nekosys.Base.{
  ℕ, zero, suc, ◌+◌, ◌-◌, ◌*◌, ◌/◌, ◌%◌, ◌≤◌, ◌<◌, ◌≡◌, ◌⊎◌, Bool, true, false, Option, none, some,
  ltb, ◌==◌, if◌then◌else◌,
}
use nekosys.Base.Words.{word, add32, sub32}

abbrev pub page_size : ℕ
page_size = 4096

abbrev pub page_used : ℕ
page_used = 1

abbrev pub page_free : ℕ
page_free = 0

-- PAGE_ALIGN_DOWN and PAGE_ALIGN_UP: the mask ~(PAGE_SIZE - 1) drops the last twelve bits.
unfoldable pub page_align_down : ℕ → ℕ
page_align_down addr = addr - addr % page_size

unfoldable pub page_align_up : ℕ → ℕ
unfolding page_align_down
page_align_up addr = page_align_down (add32 addr page_size)

unfoldable pub is_page_aligned : ℕ → Bool
unfolding page_align_down
is_page_aligned addr = page_align_down addr == addr

pub record PageManager : Type 0 where
  pub memory_base : ℕ
  pub memory_size : ℕ
  pub frame_map : ℕ
  pub num_pages : ℕ
  pub last_page_idx : ℕ
  pub pageframes_base : ℕ
  pub paging_enabled : Bool
  pub frames : ℕ → ℕ

-- A write to one byte of the map.
abbrev pub update : (ℕ → ℕ) → ℕ → ℕ → ℕ → ℕ
update f i v j = if j == i then v else f j

-- `Initialize` on a fresh object, over the bytes that the memory holds. A second call panics: that
-- is the caller's to avoid here.
unfoldable pub initialize : (ℕ → ℕ) → ℕ → ℕ → PageManager
unfolding page_align_up
initialize bytes base size = record {
  memory_base = base;
  memory_size = size;
  frame_map = base;
  num_pages = size / page_size;
  last_page_idx = 0;
  pageframes_base = page_align_up (add32 base (size / page_size));
  paging_enabled = false;
  frames = λ i. bytes (base + i);
}

unfoldable pub enable_paging : PageManager → PageManager
enable_paging m = record m { paging_enabled = true }

-- The map's bytes are reached through another address from here on.
unfoldable pub relocate_frame_map : PageManager → ℕ → PageManager
relocate_frame_map m map = record m { frame_map = map }

-- The address of frame number `i`.
abbrev pub frame_address : PageManager → ℕ → ℕ
frame_address m i = add32 m.pageframes_base (i * page_size)

-- The frame number of an address.
abbrev pub frame_index : PageManager → ℕ → ℕ
frame_index m frame = sub32 frame m.pageframes_base / page_size

-- The search of AllocPageframe from `i`, over the `n` frames left; `none` if it finds no free one.
find_free : (ℕ → ℕ) → ℕ → ℕ → Option ℕ
find_free frames zero i = none
find_free frames (suc n) i =
    let rest = find_free frames n (i + 1) in if frames i == page_free then some i else rest

-- `none` is the kernel's panic.
unfoldable pub alloc_pageframe : PageManager → Option (ℕ × PageManager)
unfolding find_free
alloc_pageframe m = elim (find_free m.frames (m.num_pages - m.last_page_idx) m.last_page_idx) [
  | none ↦ none
  | some i ↦
      some (frame_address m i, record m { frames = update m.frames i page_used; last_page_idx = i })
]

-- The inner loop of AllocContinuous: is none of the bytes i + j … i + j + n - 1 marked used?
none_used : (ℕ → ℕ) → ℕ → ℕ → ℕ → Bool
none_used frames i zero j = true
none_used frames i (suc n) j =
    let rest = none_used frames i n (j + 1) in
    if frames (add32 i j) == page_used then false else rest

-- The loop of AllocContinuous that marks i + j … i + j + n - 1.
mark_loop : (ℕ → ℕ) → ℕ → ℕ → ℕ → ℕ → ℕ
mark_loop frames i zero j = frames
mark_loop frames i (suc n) j = mark_loop (update frames (add32 i j) page_used) i n (j + 1)

-- The outer loop, over the `n` frames left from `i`.
find_continuous : (ℕ → ℕ) → ℕ → ℕ → ℕ → Option ℕ
unfolding none_used
find_continuous frames pages zero i = none
find_continuous frames pages (suc n) i =
    let rest = find_continuous frames pages n (i + 1) in
    if none_used frames i pages 0 then some i else rest

-- The address is 0 where nothing is found.
unfoldable pub alloc_continuous : PageManager → ℕ → ℕ × PageManager
unfolding find_continuous mark_loop
alloc_continuous m pages = elim (find_continuous m.frames pages m.num_pages 0) [
  | none ↦ (0, m)
  | some i ↦ (frame_address m i, record m { frames = mark_loop m.frames i pages 0 })
]

unfoldable pub mark_pageframe_as_used : PageManager → ℕ → PageManager
mark_pageframe_as_used m frame =
    let idx = frame_index m frame in
    if ltb m.num_pages idx then m else record m { frames = update m.frames idx page_used }

-- for (j = i; j < i + n; j++) MarkPageframeAsUsed(frame + j * PAGE_SIZE)
mark_frames_loop : PageManager → ℕ → ℕ → ℕ → PageManager
unfolding mark_pageframe_as_used
mark_frames_loop m frame zero i = m
mark_frames_loop m frame (suc n) i =
    mark_frames_loop (mark_pageframe_as_used m (add32 frame (i * page_size))) frame n (i + 1)

unfoldable pub mark_pageframes_as_used : PageManager → ℕ → ℕ → PageManager
unfolding mark_frames_loop
mark_pageframes_as_used m frame n = mark_frames_loop m frame n 0

unfoldable pub free_pageframe : PageManager → ℕ → PageManager
free_pageframe m pageframe =
    let idx = frame_index m pageframe in
    if ltb m.num_pages idx then m else record m {
      last_page_idx = if ltb idx m.last_page_idx then idx else m.last_page_idx;
      frames = update m.frames idx page_free;
    }

-- The allocator's state between calls. `hint` is what makes the search from last_page_idx
-- complete; `flags` is what the two tests of a map byte, for 0 and for 1, have in common.
pub record IsValid (m : PageManager) : Type 0 where
  pub hint : (i : ℕ) → i < m.last_page_idx → m.frames i ≡ page_used
  pub hint_in : m.last_page_idx ≤ m.num_pages
  pub flags : (i : ℕ) → i < m.num_pages → (m.frames i ≡ page_free) ⊎ (m.frames i ≡ page_used)
  pub fits : m.pageframes_base + m.num_pages * page_size ≤ word
  pub placed : 0 < m.pageframes_base
