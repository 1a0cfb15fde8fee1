-- ===== src/Elf/Tests.antt =====
-- libelf/elf.cpp and kernel/tasks/elfloader.cpp at a concrete image.
use nekosys.Base.{ℕ, ◌≡◌, refl, true, false, none, some, ◌==◌, if◌then◌else◌, [], ◌∷◌, get_or}
use nekosys.Memory.PageManager.{alloc_pageframe}
use nekosys.Memory.Paging.{Machine, PageDirectory, page_dir_virtual_loc}
use nekosys.Elf.{image}
use nekosys.Elf.Loader.{new_pages_loop, load_image}

-- Before paging is on, with one frame used.
abbrev machine : Machine
machine = record {
  words = λ a. 0;
  manager = record {
    memory_base = 0xF0000;
    memory_size = 0x10000;
    frame_map = 0xF0000;
    num_pages = 16;
    last_page_idx = 0;
    pageframes_base = 0x100000;
    paging_enabled = false;
    frames = λ i. if i == 0 then 1 else 0;
  };
  loaded = 0;
}

abbrev directory : PageDirectory
directory = record { phys_directory_ptr = 0x100000; virt_directory_ptr = 0x100000 }

-- With paging on: the directory in the first frame, and a table for the first 4 MB in the second.
abbrev paged : Machine
paged = record {
  words = λ a. if a == 0x100FFC then 0x100003 else if a == 0x100000 then 0x101007 else 0;
  manager = record machine.manager {
    paging_enabled = true;
    frames = λ i. if i == 0 then 1 else if i == 1 then 1 else 0;
  };
  loaded = 0x100000;
}

abbrev loaded_directory : PageDirectory
loaded_directory = record {
  phys_directory_ptr = 0x100000;
  virt_directory_ptr = page_dir_virtual_loc;
}

-- Two bytes of which the second is in another page.
abbrev mapped : ℕ × Machine
unfolding new_pages_loop alloc_pageframe
mapped = elim (new_pages_loop loaded_directory paged 1 0x2000) [ none ↦ (0, paged) | some r ↦ r ]

-- The bytes of a header, in either byte order.
abbrev header : ℕ → ℕ → ℕ
header order i =
    get_or
      (0x7F ∷ 69 ∷ 76 ∷ 70 ∷ 1 ∷ order ∷ 1 ∷ 0 ∷ 0 ∷ 0 ∷ 0 ∷ 0 ∷ 0 ∷ 0 ∷ 0 ∷ 0 ∷ 2 ∷ 0 ∷ 3 ∷ 0 ∷ 1
        ∷ 0 ∷ 0 ∷ 0 ∷ 0 ∷ 0 ∷ 32 ∷ 0 ∷ 52 ∷ 0 ∷ 0 ∷ 0 ∷ 0 ∷ 0 ∷ 0 ∷ 0 ∷ 0 ∷ 0 ∷ 0 ∷ 0 ∷ 52 ∷ 0 ∷ 32
        ∷ 0 ∷ 0 ∷ 0 ∷ [])
      i 0

image_runs :
    ((image (header 1)).is_valid ≡ true)
    × ((image (header 2)).is_valid ≡ true)
    × (load_image directory machine (image (header 1)) ≡ some none)
unfolding image load_image
image_runs = (refl, refl, refl)
