-- ===== src/Memory/Heap/Tests.antt =====
-- kernel/memory/heap.cpp: runs of the heap, and its theorems at a concrete heap.
use nekosys.Base.{
  ℕ, ◌+◌, ◌*◌, ◌≤◌, ◌≡◌, ◌⊎◌, refl, true, false, none, some, ◌==◌, if◌then◌else◌, arith,
}
use nekosys.Memory.Heap.{
  Heap, HeapEntry, IsValid, heap_seg_size, sizeof_heap_entry, heap_init, is_free, set_free,
  get_free_heap, find_free_allocation_units, calc_num_alloc_units, alloc_units, units_loop,
  run_loop, set_loop, kmalloc, kfree,
}
use nekosys.Memory.Heap.Bitmap.{Run}
use nekosys.Memory.Heap.Blocks.{
  Block, units_for, kmalloc_first_fit, kfree-kmalloc, kmalloc_disjoint,
}

abbrev no_header : ℕ → HeapEntry
no_header a = record { idx = 0; size = 0 }

-- 32 units behind a map of four bytes, of which units 0 and 2 are used.
abbrev sample : Heap
sample = record {
  allocation_map = λ i. if i == 0 then 5 else 0;
  heap_begin = 0x1004;
  allocation_map_entries = 32;
  allocation_map_size = 4;
  headers = no_header;
}

sample-IsValid : IsValid sample
sample-IsValid = record { bytes = λ i. ground arith; fits = omega arith; placed = omega arith }

-- Unit 1 alone is too short for 200 bytes.
abbrev grown : Heap
grown = elim (kmalloc sample 200) [ some (a, h) ↦ h | none ↦ sample ]

kmalloc_runs : kmalloc sample 200 ≡ some (0x1004 + 3 * 128 + 8, grown)
unfolding kmalloc alloc_units find_free_allocation_units units_loop run_loop set_loop set_free
    is_free calc_num_alloc_units
kmalloc_runs = refl

heap_runs :
    (get_free_heap sample ≡ 30 * 128)
    × (is_free grown 3 ≡ false)
    × (is_free grown 5 ≡ true)
    × (is_free (kfree grown (0x1004 + 3 * 128 + 8)) 4 ≡ true)
    × (calc_num_alloc_units 0xffffffff ≡ 0)
    × (get_free_heap (heap_init (λ i. 255) no_header 0x1000 0x1000) ≡ 0x1000)
unfolding kmalloc alloc_units find_free_allocation_units units_loop run_loop set_loop set_free
    is_free calc_num_alloc_units kfree get_free_heap heap_init
heap_runs = (refl, refl, refl, refl, refl, refl)

kmalloc_first_fit_example :
    ((unit a : ℕ) × (h' : Heap) × (kmalloc sample 200 ≡ some (a, h')) × Block sample 200 unit a h')
    ⊎ ((kmalloc sample 200 ≡ none)
        × ((k : ℕ) → k + units_for 200 ≤ 32 → ¬ Run sample k (units_for 200)))
kmalloc_first_fit_example = kmalloc_first_fit sample-IsValid 200 (omega arith)

kfree-kmalloc_example : is_free (kfree grown (0x1004 + 3 * 128 + 8)) 4 ≡ is_free sample 4
kfree-kmalloc_example =
    kfree-kmalloc 200 (0x1004 + 3 * 128 + 8) grown sample-IsValid (omega arith) kmalloc_runs 4

-- Unit 2 is in use.
kmalloc_disjoint_example :
    (0x1004 + (2 + 1) * heap_seg_size + sizeof_heap_entry ≤ 0x1004 + 3 * 128 + 8)
    ⊎ (0x1004 + 3 * 128 + 8 + 200 ≤ 0x1004 + 2 * heap_seg_size)
unfolding is_free
kmalloc_disjoint_example =
    kmalloc_disjoint 200 (0x1004 + 3 * 128 + 8) 2 1 grown sample-IsValid (omega arith)
      (λ v lo hi. let e : v ≡ 2 = omega arith in rw e refl) kmalloc_runs (omega arith)
