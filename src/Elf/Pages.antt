-- ===== src/Elf/Pages.antt =====
-- kernel/tasks/elfloader.cpp: what the pages that MapNewZeroedPages maps for a section reach.
use nekosys.Base.{ℕ, ◌+◌, ◌*◌, ◌≤◌, ◌<◌, ◌≡◌, ◌⊎◌, some}
use nekosys.Memory.PageManager.{PageManager}
use nekosys.Memory.Paging.{Machine, page_tables_virtual_loc, translate}
use nekosys.Memory.Paging.Tables.{IsSound}

-- The state after AllocPageframe.
abbrev with_manager : Machine → PageManager → Machine
with_manager m manager = record m { manager = manager }

-- From `a` on `n` pages are mapped, and of what else was mapped below the page tables, nothing has
-- changed.
pub record Mapped (m : Machine) (a n : ℕ) (m' : Machine) : Type 0 where
  pub pages :
      (j : ℕ)
      → j < n
      → (p : ℕ) × ((off : ℕ) → off < 4096 → translate m' (a + j * 4096 + off) ≡ some (p + off))
  pub kept :
      (addr q : ℕ)
      → addr < page_tables_virtual_loc
      → (addr < a) ⊎ (a + n * 4096 ≤ addr)
      → translate m addr ≡ some q
      → translate m' addr ≡ some q
  pub sound : IsSound m'
