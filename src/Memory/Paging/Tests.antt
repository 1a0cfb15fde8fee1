-- ===== src/Memory/Paging/Tests.antt =====
-- kernel/memory/pagedirectory.cpp: runs of MapPage, and its theorems at a concrete directory.
use nekosys.Base.{
  ℕ, ◌+◌, ◌*◌, ◌/◌, ◌%◌, ◌<◌, ◌≡◌, ◌⊎◌, refl, Bool, Option, true, false, none, some, ◌==◌,
  if◌then◌else◌, arith,
}
use nekosys.Memory.PageManager.{
  PageManager, IsValid, alloc_pageframe, is_page_aligned, page_align_down, update,
}
use nekosys.Memory.Paging.{
  Machine, PageDirectory, page_dir_virtual_loc, frame_of, translate, load, store, new_page,
  new_table, get_page_table, map_page, range_loop, map_range, map_self, load_directory,
  new_directory,
}
use nekosys.Memory.Paging.Mapping.{entry_at}
use nekosys.Memory.Paging.Tables.{IsSound}
use nekosys.Memory.Paging.Promise.{Remapped, map_page_maps, map_page_leaks}
use nekosys.Memory.Paging.Boot.{start_paging, boot_paging}

-- Sixteen frames from 1 MB on, of which the first two are in use.
abbrev manager : PageManager
manager = record {
  memory_base = 0xF0000;
  memory_size = 0x10000;
  frame_map = 0xF0000;
  num_pages = 16;
  last_page_idx = 0;
  pageframes_base = 0x100000;
  paging_enabled = true;
  frames = λ i. if i == 0 then 1 else if i == 1 then 1 else 0;
}

-- The directory, a table for the first 4 MB, and what the third frame held before.
abbrev machine : Machine
machine = record {
  words = λ a.
      if a == 0x100FFC
      then 0x100003
      else if a == 0x100000
      then 0x101007
      else if a == 0x102014
      then 0x123001
      else 0;
  manager = manager;
  loaded = 0x100000;
}

abbrev directory : PageDirectory
directory = record { phys_directory_ptr = 0x100000; virt_directory_ptr = page_dir_virtual_loc }

manager-IsValid : IsValid manager
manager-IsValid = record {
  hint = λ i h. absurd (omega arith);
  hint_in = omega arith;
  flags = λ i h. ground arith;
  fits = omega arith;
  placed = omega arith;
}

machine-IsSound : IsSound machine
machine-IsSound = record {
  self_mapped = record { on = refl; whole = refl; self = refl; present = refl };
  apart = λ i j hi hj ne pi pj clash. ground (arith, pi, pj, clash, ne);
  held = λ i k hi p inside free clash. ground (arith, p, free, clash);
  settled = λ i hi. ground arith;
  allocator = manager-IsValid;
  base_whole = refl;
}

map_page_maps_example :
    ((m' : Machine) × (map_page directory machine 0x105000 0x3000 2 ≡ some (true, m'))
      × Remapped machine 0x3000 0x105000 m')
    ⊎ ((map_page directory machine 0x105000 0x3000 2 ≡ none)
        × (entry_at machine (0x3000 / 4194304) ≡ 0)
        × (alloc_pageframe machine.manager ≡ none))
map_page_maps_example =
    map_page_maps directory machine machine-IsSound 0x105000 0x3000 2 refl refl refl (omega arith)

-- The third frame becomes the table of the second 4 MB, whose page 5 is mapped with it.
abbrev after : PageManager
after = record manager { frames = update manager.frames 2 1; last_page_idx = 2 }

third_frame : alloc_pageframe manager ≡ some (0x102000, after)
unfolding alloc_pageframe
third_frame = refl

map_page_leaks_example :
    (m' : Machine) × (map_page directory machine 0x105000 0x400000 2 ≡ some (true, m'))
    × (translate machine 0x405008 ≡ none)
    × (translate m' 0x405008
        ≡ some
            (frame_of (machine.words (0x102000 + 4 * (0x405008 / 4096 % 1024))) + 0x405008 % 4096))
map_page_leaks_example =
    map_page_leaks directory machine machine-IsSound 0x105000 0x400000 2 refl refl refl
      (omega arith) 0x102000 after 0x405008 refl third_frame refl (omega arith) refl

-- What an address is mapped to afterwards.
abbrev seen : Option (Bool × Machine) → ℕ → Option ℕ
seen none addr = none
seen (some (done, m)) addr = translate m addr

paging_runs :
    (seen (map_page directory machine 0x105000 0x3000 2) 0x3123 ≡ some 0x105123)
    × (seen (map_page directory machine 0x105000 0x400000 2) 0x405008 ≡ some 0x123008)
    × (map_page directory machine 0x105001 0x400000 2 ≡ some (false, machine))
    × (seen (map_range directory machine 0x105000 0x3000 4097 2) 0x4010 ≡ some 0x106010)
    × (seen (map_range directory machine 0x105000 0x3000 4096 2) 0x4010 ≡ none)
unfolding map_page get_page_table new_table new_page load store translate map_range range_loop
    alloc_pageframe is_page_aligned page_align_down
paging_runs = (refl, refl, refl, refl, refl)

abbrev unpaged : Machine
unpaged = record { words = λ a. 7; manager = record manager { paging_enabled = false }; loaded = 0 }

boot_paging_example :
    ((d : PageDirectory) × (m1 m2 : Machine) × (new_directory unpaged ≡ some (d, m1))
      × (map_self d m1 ≡ some m2)
      × IsSound (start_paging (load_directory d m2).1)
      × ((i : ℕ) → i < 1023 → entry_at (start_paging (load_directory d m2).1) i ≡ 0))
    ⊎ (alloc_pageframe unpaged.manager ≡ none)
boot_paging_example =
    boot_paging unpaged refl
      (record {
        hint = manager-IsValid.hint;
        hint_in = manager-IsValid.hint_in;
        flags = manager-IsValid.flags;
        fits = manager-IsValid.fits;
        placed = manager-IsValid.placed;
      })
      refl
