-- ===== src/Memory/PageManager/Boot.antt =====
-- kernel/memory/pagemanager.cpp: Initialize, MarkPageframesAsUsed, and the alignment of memdefs.h.
use nekosys.Base.{
  ℕ, zero, suc, ◌+◌, ◌*◌, ◌/◌, ◌≤◌, ◌<◌, ◌≡◌, refl, ap, ◌∙◌, inl, true, ltb, leb, ◌&&◌, ◌==◌,
  if◌then◌else◌, arith,
}
use nekosys.Base.Words.{word, add32}
use nekosys.Memory.PageManager.{
  PageManager, IsValid, page_size, page_used, page_align_up, is_page_aligned, initialize,
  frame_address, frame_index, mark_pageframe_as_used, mark_frames_loop, mark_pageframes_as_used,
}
use nekosys.Memory.PageManager.Alloc.{frame_index-frame_address}

-- PAGE_ALIGN_UP is the least page-aligned address strictly above its argument, also where that is
-- aligned already.
pub page_align_up_least :
    (addr : ℕ)
    → addr + page_size < word
    → (addr < page_align_up addr)
      × (is_page_aligned (page_align_up addr) ≡ true)
      × ((a : ℕ) → addr < a → is_page_aligned a ≡ true → page_align_up addr ≤ a)
unfolding page_align_up is_page_aligned
page_align_up_least addr h = (omega arith, ground arith, λ a lo al. ground arith)

module _ (bytes : ℕ → ℕ) (base size : ℕ) where
  -- Initialize clears no byte of the map: the allocator starts in a valid state, with every frame
  -- free, where the memory it is given holds zeros there and the frames do not pass 2^32.
  pub initialize-IsValid :
      ((i : ℕ) → i < size / page_size → bytes (base + i) ≡ 0)
      → base + size / page_size + page_size + size < word
      → IsValid (initialize bytes base size)
  unfolding initialize
  initialize-IsValid zeroed fits = record {
    hint = λ i h. absurd (omega arith);
    hint_in = omega arith;
    flags = λ i h. inl (zeroed i h);
    fits = omega arith;
    placed = omega arith;
  }

  -- From 16 MB on, the frames that Initialize hands to the allocator pass the end of the memory.
  pub initialize_overcommits :
      4096 * page_size ≤ size
      → base + size / page_size + page_size < word
      → base + size
        < (initialize bytes base size).pageframes_base
          + (initialize bytes base size).num_pages * page_size
  unfolding initialize
  initialize_overcommits large fits = omega arith

mark_one :
    (m : PageManager) (frame i j : ℕ)
    → frame ≡ frame_address m i
    → IsValid m
    → i < m.num_pages
    → (mark_pageframe_as_used m frame).frames j ≡ (if j == i then page_used else m.frames j)
unfolding mark_pageframe_as_used
mark_one m frame i j e v h =
    let q : frame_index m frame ≡ i = ap (frame_index m) e ∙ frame_index-frame_address m i v h in
    ground (arith, q)

mark-IsValid :
    (m : PageManager) (frame i : ℕ)
    → frame ≡ frame_address m i
    → IsValid m
    → i < m.num_pages
    → IsValid (mark_pageframe_as_used m frame)
unfolding mark_pageframe_as_used
mark-IsValid m frame i e v h =
    let q : frame_index m frame ≡ i = ap (frame_index m) e ∙ frame_index-frame_address m i v h in
    record {
      hint = λ j l. ground (arith, q, v.hint j);
      hint_in = ground (arith, v.hint_in);
      flags = λ j l. ground (arith, q, v.flags j);
      fits = ground (arith, v.fits);
      placed = ground (arith, v.placed);
    }

same_bounds :
    (m : PageManager) (frame : ℕ)
    → ((mark_pageframe_as_used m frame).num_pages ≡ m.num_pages)
      × ((mark_pageframe_as_used m frame).pageframes_base ≡ m.pageframes_base)
unfolding mark_pageframe_as_used
same_bounds m frame = ground arith

mark_loop_marks :
    (m : PageManager) (frame k n i j : ℕ)
    → frame ≡ frame_address m k
    → IsValid m
    → k + i + n ≤ m.num_pages
    → IsValid (mark_frames_loop m frame n i)
      × ((mark_frames_loop m frame n i).frames j
          ≡ (if leb (k + i) j && ltb j (k + i + n) then page_used else m.frames j))
unfolding mark_frames_loop
mark_loop_marks m frame k zero i j q v h = (v, ground arith)
mark_loop_marks m frame k (suc n) i j q v h =
    let here = add32 frame (i * page_size) in
    let e : here ≡ frame_address m (k + i) = omega (arith, q, v.fits) in
    let m' = mark_pageframe_as_used m here in
    let b = same_bounds m here in
    let q' : frame ≡ frame_address m' k = omega (arith, b.1) in
    let one = mark_one m here (k + i) j e v (omega arith) in
    let rest =
      mark_loop_marks m' frame k n (i + 1) j q' (mark-IsValid m here (k + i) e v (omega arith))
        (omega (arith, b.0)) in
    (rest.0, ground (arith, one, rest.1))

-- MarkPageframesAsUsed of `n` frames from frame `k` on marks exactly those and keeps the state
-- valid.
pub mark_pageframes_as_used_marks :
    (m : PageManager) (k n j : ℕ)
    → IsValid m
    → k + n ≤ m.num_pages
    → IsValid (mark_pageframes_as_used m (frame_address m k) n)
      × ((mark_pageframes_as_used m (frame_address m k) n).frames j
          ≡ (if leb k j && ltb j (k + n) then page_used else m.frames j))
unfolding mark_pageframes_as_used
mark_pageframes_as_used_marks m k n j v h =
    let r = mark_loop_marks m (frame_address m k) k n 0 j refl v (omega arith) in
    (r.0, ground (arith, r.1))
