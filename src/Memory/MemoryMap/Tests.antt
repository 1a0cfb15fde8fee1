-- ===== src/Memory/MemoryMap/Tests.antt =====
-- kernel/memory/memorymap.cpp at a concrete map.
use nekosys.Base.{ℕ, ◌≤◌, ◌<◌, ◌≡◌, ◌⊎◌, refl, ◌==◌, if◌then◌else◌, none, arith}
use nekosys.Memory.MemoryMap.{MemoryMap, parse_map, get_largest_chunk}
use nekosys.Memory.MemoryMap.Largest.{get_largest_chunk_bounds}

-- A usable entry behind a longer one that is reserved.
abbrev reserved_first : MemoryMap
reserved_first = record {
  entries = λ i.
      if i == 0
      then record {
        base_low = 0;
        base_high = 0;
        length_low = 900;
        length_high = 0;
        type = 2;
        acpi = 0;
      }
      else record {
        base_low = 4096;
        base_high = 0;
        length_low = 500;
        length_high = 0;
        type = 1;
        acpi = 0;
      };
  length = 2;
}

-- The reserved entry is given.
reserved_run : (get_largest_chunk reserved_first).type ≡ 2
unfolding get_largest_chunk
reserved_run = refl

parse_run : parse_map 1 reserved_first.entries 0 ≡ none
unfolding parse_map
parse_run = refl

get_largest_chunk_bounds_example :
    ((j : ℕ)
      → j < 2
      → (reserved_first.entries j).type ≡ 1
      → (reserved_first.entries j).length_low ≤ (get_largest_chunk reserved_first).length_low)
    × ((i : ℕ) × (i < 2)
        × (reserved_first.entries i ≡ get_largest_chunk reserved_first)
        × ((i ≡ 0) ⊎ ((reserved_first.entries i).type ≡ 1)))
    × ((reserved_first.entries 0).type ≡ 1 → (get_largest_chunk reserved_first).type ≡ 1)
get_largest_chunk_bounds_example = get_largest_chunk_bounds reserved_first (omega arith)
