-- ===== src/Memory/PageManager/Tests.antt =====
-- kernel/memory/pagemanager.cpp: runs of the allocator, and its theorems at concrete states.
use nekosys.Base.{
  ℕ, ◌≤◌, ◌<◌, ◌≡◌, ◌≢◌, ◌⊎◌, refl, none, some, false, true, arith, ◌==◌, ltb, if◌then◌else◌,
}
use nekosys.Memory.PageManager.{
  PageManager, IsValid, page_used, page_free, page_align_up, is_page_aligned, initialize,
  frame_index, alloc_pageframe, alloc_continuous, free_pageframe, enable_paging, relocate_frame_map,
}
use nekosys.Memory.PageManager.Alloc.{Allocated, alloc_pageframe_first_free, free_pageframe_frees}
use nekosys.Memory.PageManager.Continuous.{Unused, Continuous, alloc_continuous_marks}
use nekosys.Memory.PageManager.Boot.{page_align_up_least, initialize-IsValid}

-- Four frames from 64 KB on, of which the first two are used.
abbrev sample : PageManager
sample = record {
  memory_base = 0x8000;
  memory_size = 0x4000;
  frame_map = 0x8000;
  num_pages = 4;
  last_page_idx = 1;
  pageframes_base = 0x10000;
  paging_enabled = false;
  frames = λ i. if ltb i 2 then 1 else 0;
}

sample-IsValid : IsValid sample
sample-IsValid = record {
  hint = λ i h. ground arith;
  hint_in = omega arith;
  flags = λ i h. ground arith;
  fits = omega arith;
  placed = omega arith;
}

abbrev after : PageManager
after = record sample {
  frames = λ j. if j == 2 then 1 else if ltb j 2 then 1 else 0;
  last_page_idx = 2;
}

sample_alloc : alloc_pageframe sample ≡ some (0x12000, after)
unfolding alloc_pageframe
sample_alloc = refl

switches :
    ((enable_paging sample).paging_enabled ≡ true) × ((relocate_frame_map sample 7).frame_map ≡ 7)
unfolding enable_paging relocate_frame_map
switches = (refl, refl)

continuous_runs :
    ((alloc_continuous sample 2).0 ≡ 0x12000) × ((alloc_continuous sample 9).0 ≡ 0x12000)
unfolding alloc_continuous
continuous_runs = (refl, refl)

alloc_pageframe_first_free_example :
    ((i a : ℕ) × (m' : PageManager) × (alloc_pageframe sample ≡ some (a, m'))
      × Allocated sample i a m')
    ⊎ ((alloc_pageframe sample ≡ none) × ((j : ℕ) → j < 4 → sample.frames j ≡ page_used))
alloc_pageframe_first_free_example = alloc_pageframe_first_free sample-IsValid

-- 0x11234 lies in frame 1.
free_pageframe_frees_example :
    IsValid (free_pageframe sample 0x11234)
    × ((free_pageframe sample 0x11234).frames (frame_index sample 0x11234) ≡ page_free)
    × ((j : ℕ)
        → j ≢ frame_index sample 0x11234
        → (free_pageframe sample 0x11234).frames j ≡ sample.frames j)
free_pageframe_frees_example = free_pageframe_frees sample-IsValid 0x11234 (omega arith)

alloc_continuous_marks_example :
    ((i a : ℕ) × (m' : PageManager) × (alloc_continuous sample 2 ≡ (a, m'))
      × Continuous sample 2 i a m')
    ⊎ ((alloc_continuous sample 2 ≡ (0, sample)) × ((i : ℕ) → i < 4 → ¬ Unused sample.frames i 2))
alloc_continuous_marks_example = alloc_continuous_marks sample-IsValid 2 (omega arith)

page_align_up_least_example :
    (0x3000 < page_align_up 0x3000)
    × (is_page_aligned (page_align_up 0x3000) ≡ true)
    × ((a : ℕ) → 0x3000 < a → is_page_aligned a ≡ true → page_align_up 0x3000 ≤ a)
page_align_up_least_example = page_align_up_least 0x3000 (omega arith)

initialize-IsValid_example : IsValid (initialize (λ i. 0) 0x100000 0x4000000)
initialize-IsValid_example =
    initialize-IsValid (λ i. 0) 0x100000 0x4000000 (λ i h. refl) (omega arith)
