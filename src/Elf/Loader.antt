-- ===== src/Elf/Loader.antt =====
-- kernel/tasks/elfloader.cpp: loading the sections of an image into a new page directory.
use nekosys.Base.{
  ℕ, zero, suc, ◌+◌, ◌-◌, ◌*◌, ◌/◌, ◌%◌, ◌^◌, true, false, Option, none, some, List, [], ◌∷◌, ◌++◌,
  ◌==◌, if◌then◌else◌,
}
use nekosys.Base.Words.{add32}
use nekosys.Memory.PageManager.{page_size, page_align_down, page_align_up, is_page_aligned}
use nekosys.Memory.Paging.{
  Machine, PageDirectory, load, store, new_page, map_page, load_directory, copy_directory, ◌>>=◌,
}
use nekosys.Elf.{Image, ProgramHeader, program_headers}

-- One byte of a word.
abbrev pub put_byte : ℕ → ℕ → ℕ → ℕ
put_byte w k b = w - w / 256 ^ k % 256 * 256 ^ k + b * 256 ^ k

unfoldable pub store_byte : Machine → ℕ → ℕ → Option Machine
unfolding load store
store_byte m addr b =
    load m (addr - addr % 4) >>= λ w. store m (addr - addr % 4) (put_byte w (addr % 4) b)

-- memcpy and memset: `n` bytes to an address and up.
unfoldable pub copy_in : Machine → (ℕ → ℕ) → ℕ → ℕ → Option Machine
unfolding store_byte
copy_in m bytes dst zero = some m
copy_in m bytes dst (suc n) =
    store_byte m dst (bytes 0) >>= λ m'. copy_in m' (λ i. bytes (i + 1)) (add32 dst 1) n

-- The loop of MapNewZeroedPages over the `n` pages left: the address behind them.
unfoldable pub new_pages_loop : PageDirectory → Machine → ℕ → ℕ → Option (ℕ × Machine)
unfolding new_page map_page
new_pages_loop d m zero a = some (a, m)
new_pages_loop d m (suc n) a =
    new_page m >>= λ r. map_page d r.1 r.0 a 6 >>= λ s. new_pages_loop d s.1 n (add32 a page_size)

-- MapNewZeroedPages; `none` is a panic or a page fault, here and below.
unfoldable pub map_new_zeroed_pages : PageDirectory → Machine → ℕ → ℕ → Option (ℕ × Machine)
unfolding new_pages_loop copy_in page_align_up is_page_aligned
map_new_zeroed_pages d m vaddr size = elim (is_page_aligned vaddr) [
  | false ↦ some (0, m)
  | true ↦ new_pages_loop d m (page_align_up size / page_size) vaddr >>= λ r.
      copy_in r.1 (λ i. 0) vaddr size >>= λ m'. some (r.0, m')
]

-- The pages that the process owns, the end of what was mapped last, and the machine.
pub record Loaded : Type 0 where
  pub pages : List ℕ
  pub executable_end : ℕ
  pub machine : Machine

unfoldable pub load_section : PageDirectory → (ℕ → ℕ) → ProgramHeader → Loaded → Option Loaded
unfolding map_new_zeroed_pages copy_in
load_section d file h l = elim (h.p_type == 1) [
  | false ↦ some l
  | true ↦ map_new_zeroed_pages d l.machine (page_align_down h.p_vaddr) h.p_filesz >>= λ r.
      copy_in r.1 (λ i. file (h.p_offset + i)) h.p_vaddr h.p_filesz >>= λ m.
      some (record { pages = l.pages ++ (r.0 ∷ []); executable_end = r.0; machine = m })
]

unfoldable pub load_sections : PageDirectory → (ℕ → ℕ) → List ProgramHeader → Loaded → Option Loaded
unfolding load_section
load_sections d file [] l = some l
load_sections d file (h ∷ hs) l = load_section d file h l >>= load_sections d file hs

-- CreateProcess up to the sections, without the copy of the arguments: the new page directory and what was loaded; the inner `none` is
-- the null pointer that it returns.
unfoldable pub load_image :
    PageDirectory → Machine → Image → Option (Option (PageDirectory × Loaded))
unfolding load_sections load_directory copy_directory program_headers
load_image kernel_dir m i = elim i.is_valid [
  | false ↦ some none
  | true ↦ elim (i.header.e_phnum == 0) [
    | true ↦ some none
    | false ↦
        let loaded = load_directory kernel_dir m in
        copy_directory loaded.0 loaded.1 >>= λ r.
        load_sections r.0 i.bytes (program_headers i.bytes i.header.e_phnum i.header.e_phoff)
          (record { pages = []; executable_end = 0; machine = r.1 })
        >>= λ l. some (if l.executable_end == 0 then none else some (r.0, l))
  ]
]
