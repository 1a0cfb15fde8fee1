-- ===== src/Memory/Paging.antt =====
-- kernel/memory/pagedirectory.cpp: page directories and their page tables.
-- Memory is seen through the processor: with paging on, an address is looked up in the directory
-- that is loaded, in the two levels of tables that the i386 documents. The tables of the processor's
-- cache of translations (FlushPage) are left out.
pub mod Mapping
pub mod Tables
pub mod Promise
pub mod Boot
mod Tests
use Prim.Native.Nat.{bit_or}
use nekosys.Base.{
  ℕ, zero, suc, ◌+◌, ◌-◌, ◌*◌, ◌/◌, ◌%◌, ◌^◌, Bool, true, false, ◌&&◌, Option, none, some, ◌==◌,
  if◌then◌else◌,
}
use nekosys.Base.Words.{add32}
use nekosys.Memory.PageManager.{PageManager, page_size, alloc_pageframe, is_page_aligned, update}

-- `words` is the word at each physical address, `loaded` the directory that the processor uses.
pub record Machine : Type 0 where
  pub words : ℕ → ℕ
  pub manager : PageManager
  pub loaded : ℕ

pub record PageDirectory : Type 0 where
  pub phys_directory_ptr : ℕ
  pub virt_directory_ptr : ℕ

abbrev pub page_tables_virtual_loc : ℕ
page_tables_virtual_loc = 0xFFC00000

abbrev pub page_dir_virtual_loc : ℕ
page_dir_virtual_loc = 0xFFFFF000

abbrev pub page_dir_temp_loc : ℕ
page_dir_temp_loc = 0xFF100000

-- The address in an entry of a table, and its flag PAGE_BIT_PRESENT.
abbrev pub frame_of : ℕ → ℕ
frame_of entry = entry / 4096 * 4096

abbrev pub is_present : ℕ → Bool
is_present entry = entry % 2 == 1

-- The physical address of a virtual one; `none` is a page fault.
unfoldable pub translate : Machine → ℕ → Option ℕ
translate m addr =
    let entry = m.words (m.loaded + 4 * (addr / 4194304)) in
    let page = m.words (frame_of entry + 4 * (addr / 4096 % 1024)) in
    if m.manager.paging_enabled
    then (if is_present entry
        then (if is_present page then some (frame_of page + addr % 4096) else none)
        else none)
    else some addr

infixl 5 ◌>>=◌
abbrev pub ◌>>=◌ {ℓ κ} : {A : Type ℓ} {B : Type κ} → Option A → (A → Option B) → Option B
none >>= next = none
some a >>= next = next a

unfoldable pub load : Machine → ℕ → Option ℕ
unfolding translate
load m addr = translate m addr >>= λ p. some (m.words p)

unfoldable pub store : Machine → ℕ → ℕ → Option Machine
unfolding translate
store m addr v = translate m addr >>= λ p. some (record m { words = update m.words p v })

-- NewPage; `none` is the panic of AllocPageframe. What the frame holds stays in it.
unfoldable pub new_page : Machine → Option (ℕ × Machine)
new_page m = alloc_pageframe m.manager >>= λ r. some (r.0, record m { manager = r.1 })

-- A fresh page table for the entry `idx`, which lets users in.
unfoldable pub new_table : PageDirectory → Machine → ℕ → Option (ℕ × Machine)
unfolding new_page store
new_table d m idx = do
  r ← new_page m
  m' ← store r.1 (add32 d.virt_directory_ptr (4 * idx)) (bit_or r.0 7)
  some (r.0, m')

-- GetPageTable: the address that the table is reached at.
unfoldable pub get_page_table : PageDirectory → Machine → ℕ → Option (ℕ × Machine)
unfolding load new_table
get_page_table d m idx = do
  entry ← load m (add32 d.virt_directory_ptr (4 * idx))
  let made = new_table d m idx
  if m.manager.paging_enabled
      then (if entry == 0
          then (made >>= λ r. some (add32 page_tables_virtual_loc (4096 * idx), r.1))
          else some (add32 page_tables_virtual_loc (4096 * idx), m))
      else (if frame_of entry == 0 then made else some (frame_of entry, m))

-- (uint32_t)physicalAddr | ((permissions | PAGE_BIT_PRESENT) & 0xFFF)
abbrev pub table_entry : ℕ → ℕ → ℕ
table_entry physical permissions = bit_or physical ((permissions - permissions % 2 + 1) % 4096)

-- MapPage, with its result.
unfoldable pub map_page : PageDirectory → Machine → ℕ → ℕ → ℕ → Option (Bool × Machine)
unfolding get_page_table store
map_page d m physical virtual permissions =
    let page = virtual / page_size in
    let mapped = get_page_table d m (page / 1024) >>= λ r.
    store r.1 (add32 r.0 (4 * (page % 1024))) (table_entry physical permissions) >>= λ m'.
    some (true, m') in
    if is_page_aligned physical && is_page_aligned virtual then mapped else some (false, m)

-- The loop of MapRange over the `n` pages left, from byte `i` on.
unfoldable pub range_loop : PageDirectory → Machine → ℕ → ℕ → ℕ → ℕ → ℕ → Option (Bool × Machine)
unfolding map_page
range_loop d m physical virtual permissions zero i = some (true, m)
range_loop d m physical virtual permissions (suc n) i =
    map_page d m (add32 physical i) (add32 virtual i) permissions >>= λ r. elim r.0 [
      | true ↦ range_loop d r.1 physical virtual permissions n (i + page_size)
      | false ↦ some (false, r.1)
    ]

-- MapRange, for less than 4 GB - 4 KB, where the loop's counter does not overflow.
unfoldable pub map_range : PageDirectory → Machine → ℕ → ℕ → ℕ → ℕ → Option (Bool × Machine)
unfolding range_loop
map_range d m physical virtual bytes permissions =
    if is_page_aligned physical && is_page_aligned virtual
    then range_loop d m physical virtual permissions ((bytes + 4095) / page_size) 0
    else some (false, m)

-- MapSelf
unfoldable pub map_self : PageDirectory → Machine → Option Machine
unfolding store
map_self d m = store m (add32 d.virt_directory_ptr (4 * 1023)) (bit_or d.phys_directory_ptr 3)

-- Load
unfoldable pub load_directory : PageDirectory → Machine → PageDirectory × Machine
load_directory d m = (
  record d { virt_directory_ptr = page_dir_virtual_loc },
  record m { loaded = d.phys_directory_ptr },
)

-- The loop that clears the `n` words from the entry `i` on.
unfoldable pub clear_loop : Machine → ℕ → ℕ → ℕ → Option Machine
unfolding store
clear_loop m ptr zero i = some m
clear_loop m ptr (suc n) i = store m (add32 ptr (4 * i)) 0 >>= λ m'. clear_loop m' ptr n (i + 1)

-- PageDirectory(); `none` is also the panic when paging is on.
unfoldable pub new_directory : Machine → Option (PageDirectory × Machine)
unfolding new_page
new_directory m = do
  r ← new_page m
  m' ← clear_loop r.1 r.0 1024 0
  if m.manager.paging_enabled
      then none
      else some (record { phys_directory_ptr = r.0; virt_directory_ptr = r.0 }, m')

-- The loop that copies the `n` words from the entry `i` on.
unfoldable pub copy_entries : Machine → ℕ → ℕ → ℕ → ℕ → Option Machine
unfolding load store
copy_entries m from to zero i = some m
copy_entries m from to (suc n) i = do
  v ← load m (add32 from (4 * i))
  m' ← store m (add32 to (4 * i)) v
  copy_entries m' from to n (i + 1)

-- PageDirectory(const PageDirectory &)
unfoldable pub copy_directory : PageDirectory → Machine → Option (PageDirectory × Machine)
unfolding new_page load_directory
copy_directory other m = do
  r ← new_page m
  let d : PageDirectory = record {
    phys_directory_ptr = r.0;
    virt_directory_ptr = other.virt_directory_ptr;
  }
  mapped ← map_page d r.1 r.0 page_dir_temp_loc 2
  copied ← copy_entries mapped.1 d.virt_directory_ptr page_dir_temp_loc 1024 0
  m' ← store copied (add32 page_dir_temp_loc (4 * 1023)) (bit_or r.0 3)
  some (load_directory d m')
