-- ===== src/Memory/Heap.antt =====
-- kernel/memory/heap.cpp: the kernel heap, first fit over a bitmap of 128-byte units.
mod Tests
pub mod Bitmap
pub mod Blocks
use nekosys.Base.{
  ℕ, zero, suc, ◌+◌, ◌-◌, ◌*◌, ◌/◌, ◌%◌, ◌^◌, ◌≤◌, ◌<◌, ◌≡◌, Bool, true, false, Option, none, some,
  ltb, leb, ◌==◌, if◌then◌else◌,
}
use nekosys.Base.Words.{word, add32, sub32}
use nekosys.Base.Bytes.{bit_clear, with_bit, without_bit}

abbrev pub heap_seg_size : ℕ
heap_seg_size = 128

-- `heap_entry`: the first unit of a block and the number of its units.
pub record HeapEntry : Type 0 where
  pub idx : ℕ
  pub size : ℕ

abbrev pub sizeof_heap_entry : ℕ
sizeof_heap_entry = 8

-- The bytes of the allocation map are a function on offsets, as the code checks no bounds; the
-- headers are read at the address of their slot.
pub record Heap : Type 0 where
  pub allocation_map : ℕ → ℕ
  pub heap_begin : ℕ
  pub allocation_map_entries : ℕ
  pub allocation_map_size : ℕ
  pub headers : ℕ → HeapEntry

-- `heap_init`, over what the memory of the headers holds.
unfoldable pub heap_init : (ℕ → ℕ) → (ℕ → HeapEntry) → ℕ → ℕ → Heap
heap_init bytes headers base size =
    let entries = size / heap_seg_size in
    record {
      allocation_map = λ i. if ltb i (entries / 8) then 0 else bytes (base + i);
      heap_begin = add32 base (entries / 8);
      allocation_map_entries = entries;
      allocation_map_size = entries / 8;
      headers = headers;
    }

unfoldable pub is_free : Heap → ℕ → Bool
is_free h unit = bit_clear (h.allocation_map (unit / 8)) (unit % 8)

unfoldable pub set_free : Heap → ℕ → Bool → Heap
set_free h unit free =
    let a = unit / 8 in
    let byte = h.allocation_map a in
    record h {
      allocation_map = λ i.
          if i == a
          then (if free then without_bit byte (unit % 8) else with_bit byte (unit % 8))
          else h.allocation_map i;
    }

-- The loop of `get_free_heap` over the `n` units from `i` on.
free_loop : Heap → ℕ → ℕ → ℕ → ℕ
free_loop h zero i acc = acc
free_loop h (suc n) i acc =
    free_loop h n (i + 1) (if is_free h i then add32 acc heap_seg_size else acc)

unfoldable pub get_free_heap : Heap → ℕ
unfolding free_loop is_free
get_free_heap h = free_loop h h.allocation_map_entries 0 0

-- The inner loop of `find_free_allocation_units`, over the `n` units from `j` on.
pub run_loop : Heap → ℕ → ℕ → ℕ → ℕ → Bool
run_loop h zero j num units = false
run_loop h (suc n) j num units =
    let rest = run_loop h n (j + 1) (num + 1) units in
    if is_free h j then (if num + 1 == units then true else rest) else false

-- The outer loop, over the `n` units from `i` on; the test of `is_free(i)` is the first of the run.
pub units_loop : Heap → ℕ → ℕ → ℕ → Option ℕ
units_loop h zero i units = none
units_loop h (suc n) i units =
    let rest = units_loop h n (i + 1) units in
    if is_free h i then (if run_loop h (suc n) i 0 units then some i else rest) else rest

-- `none` is the source's -1.
unfoldable pub find_free_allocation_units : Heap → ℕ → Option ℕ
find_free_allocation_units h units = units_loop h h.allocation_map_entries 0 units

-- The parameter is an int, of which the caller passes the bits of a size_t: from 2^31 on it is
-- negative, the division rounds towards zero, and the result goes back to a size_t.
unfoldable pub calc_num_alloc_units : ℕ → ℕ
calc_num_alloc_units bytes =
    let minus = word - bytes in
    if ltb bytes (2 ^ 31)
    then (bytes + heap_seg_size - 1) / heap_seg_size
    else if leb minus 127
    then 0
    else sub32 0 ((minus - 127) / heap_seg_size)

-- for (k = i; k < i + n; k++) set_free(unit + k, free)
pub set_loop : Heap → ℕ → ℕ → ℕ → Bool → Heap
set_loop h unit zero i free = h
set_loop h unit (suc n) i free = set_loop (set_free h (add32 unit i) free) unit n (i + 1) free

-- The address of a unit.
abbrev pub slot_address : Heap → ℕ → ℕ
slot_address h unit = add32 h.heap_begin ((unit * heap_seg_size) % word)

-- kmalloc from the search on, for a number of units; `none` is the kernel's panic.
unfoldable pub alloc_units : Heap → ℕ → Option (ℕ × Heap)
alloc_units h units = elim (find_free_allocation_units h units) [
  | none ↦ none
  | some unit ↦
      let slot = slot_address h unit in
      let marked = set_loop h unit units 0 false in
      some (
        add32 slot sizeof_heap_entry,
        record marked {
          headers = λ a. if a == slot then record { idx = unit; size = units } else h.headers a;
        },
      )
]

unfoldable pub kmalloc : Heap → ℕ → Option (ℕ × Heap)
kmalloc h size = alloc_units h (calc_num_alloc_units (add32 size sizeof_heap_entry))

unfoldable pub kfree : Heap → ℕ → Heap
kfree h ptr =
    let description = h.headers (sub32 ptr sizeof_heap_entry) in
    if ptr == 0 then h else set_loop h description.idx description.size 0 true

-- What holds between calls: the map consists of bytes, and the units lie inside the address space.
pub record IsValid (h : Heap) : Type 0 where
  pub bytes : (i : ℕ) → h.allocation_map i < 256
  pub fits : h.heap_begin + h.allocation_map_entries * heap_seg_size < word
  pub placed : 0 < h.heap_begin
