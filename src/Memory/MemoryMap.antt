-- ===== src/Memory/MemoryMap.antt =====
-- kernel/memory/memorymap.cpp: the memory map of the BIOS.
pub mod Largest
mod Tests
use nekosys.Base.{
  ℕ, zero, suc, ◌+◌, Bool, true, false, ◌&&◌, Option, none, some, ltb, ◌==◌, if◌then◌else◌,
}

pub record MemoryMapEntry : Type 0 where
  pub base_low : ℕ
  pub base_high : ℕ
  pub length_low : ℕ
  pub length_high : ℕ
  pub type : ℕ
  pub acpi : ℕ

-- The entries lie in memory one behind the other, and are read without a test of the length.
pub record MemoryMap : Type 0 where
  pub entries : ℕ → MemoryMapEntry
  pub length : ℕ

-- Parse, for the hand-over's state, pointer and length; `none` is a panic.
unfoldable pub parse_map : ℕ → (ℕ → MemoryMapEntry) → ℕ → Option MemoryMap
parse_map state entries length =
    if (state == 1) && (length == 0)
    then none
    else if state == 2
    then none
    else if state == 3
    then none
    else some (record { entries = entries; length = length })

unfoldable pub is_larger : MemoryMapEntry → MemoryMapEntry → Bool
is_larger entry largest = (entry.type == 1) && ltb largest.length_low entry.length_low

-- The loop of GetLargestChunk over the `n` entries left, from `i` on.
unfoldable pub largest_loop : (ℕ → MemoryMapEntry) → MemoryMapEntry → ℕ → ℕ → MemoryMapEntry
unfolding is_larger
largest_loop entries largest zero i = largest
largest_loop entries largest (suc n) i =
    largest_loop entries (if is_larger (entries i) largest then entries i else largest) n (i + 1)

unfoldable pub get_largest_chunk : MemoryMap → MemoryMapEntry
unfolding largest_loop
get_largest_chunk m = largest_loop m.entries (m.entries 0) m.length 0
