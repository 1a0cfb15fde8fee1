-- ===== src/Memory/Paging/Tables.antt =====
-- kernel/memory/pagedirectory.cpp: MapPage over the frames of the page manager, where a table may
-- have to be made first.
use Prim.Native.Nat.{bit_or}
use nekosys.Base.{
  ℕ, ◌+◌, ◌*◌, ◌/◌, ◌%◌, ◌<◌, ◌≡◌, ◌≢◌, ◌⊎◌, refl, sym, ap, ◌∙◌, subst, true, some, ◌==◌, arith,
  Bool-cases, inl, inr,
}
use nekosys.Base.Words.{add32}
use nekosys.Base.Masks.{bit_or-page}
use nekosys.Memory.PageManager.{
  PageManager, IsValid, page_size, page_free, page_used, update, alloc_pageframe,
}
use nekosys.Memory.PageManager.Alloc.{Allocated}
use nekosys.Memory.Paging.{
  Machine, PageDirectory, page_tables_virtual_loc, page_dir_virtual_loc, frame_of, translate,
  new_page, new_table, get_page_table,
}
use nekosys.Memory.Paging.Mapping.{
  SelfMapped, TablesApart, entry_at, walk, translate-walk, translate-directory, load-directory,
  update_self, update_ne, store-translate,
}

-- No table lies in a frame that is free.
abbrev pub TablesHeld : Machine → Type 0
TablesHeld m =
    (i k : ℕ)
    → i < 1024
    → entry_at m i % 2 ≡ 1
    → k < m.manager.num_pages
    → m.manager.frames k ≡ page_free
    → frame_of (entry_at m i) ≢ m.manager.pageframes_base + k * page_size

-- The state between calls, with paging on: an entry of the directory is 0 or leads to a table.
pub record IsSound (m : Machine) : Type 0 where
  pub self_mapped : SelfMapped m
  pub apart : TablesApart m
  pub held : TablesHeld m
  pub settled : (i : ℕ) → i < 1024 → (entry_at m i ≡ 0) ⊎ (entry_at m i % 2 ≡ 1)
  pub allocator : IsValid m.manager
  pub base_whole : m.manager.pageframes_base % 4096 ≡ 0

-- Only the directory's entries matter to it.
pub IsSound-entries :
    (m m' : Machine)
    → IsSound m
    → m'.manager ≡ m.manager
    → m'.loaded ≡ m.loaded
    → SelfMapped m'
    → ((i : ℕ) → i < 1024 → entry_at m' i ≡ entry_at m i)
    → IsSound m'
IsSound-entries m m' s manager loaded self same = record {
  self_mapped = self;
  apart = λ i j hi hj ne pi pj clash.
      s.apart i j hi hj ne (ap (λ z. z % 2) (sym (same i hi)) ∙ pi)
        (ap (λ z. z % 2) (sym (same j hj)) ∙ pj)
        (ap frame_of (sym (same i hi)) ∙ clash ∙ ap frame_of (same j hj));
  held = λ i k hi p inside free clash.
      s.held i k hi (ap (λ z. z % 2) (sym (same i hi)) ∙ p)
        (subst (λ (z : PageManager). k < z.num_pages) manager inside)
        (ap (λ (z : PageManager). z.frames k) (sym manager) ∙ free)
        (ap frame_of (sym (same i hi))
          ∙ clash
          ∙ ap (λ (z : PageManager). z.pageframes_base + k * page_size) manager);
  settled = λ i hi. subst (λ z. (z ≡ 0) ⊎ (z % 2 ≡ 1)) (sym (same i hi)) (s.settled i hi);
  allocator = subst IsValid (sym manager) s.allocator;
  base_whole = ap (λ (z : PageManager). z.pageframes_base % 4096) manager ∙ s.base_whole;
}

-- The machine with a fresh table for an entry, before a page is mapped.
unfoldable pub tabled : Machine → ℕ → ℕ → PageManager → Machine
tabled m idx table manager = record m {
  words = update m.words (m.loaded + 4 * idx) (table + 7);
  manager = manager;
}

module _ (m : Machine) (s : IsSound m) (idx k t : ℕ) (manager : PageManager) (inside : idx < 1023)
    (absent : entry_at m idx ≡ 0) (new : Allocated m.manager k t manager) where
  pub whole : t % 4096 ≡ 0
  whole = omega (arith, new.address, s.base_whole)

  pub entry_new : entry_at (tabled m idx t manager) idx ≡ t + 7
  unfolding tabled
  entry_new = update_self m.words (m.loaded + 4 * idx) (t + 7)

  entry_old : (i : ℕ) → i ≢ idx → entry_at (tabled m idx t manager) i ≡ entry_at m i
  unfolding tabled
  entry_old i ne =
      update_ne m.words (m.loaded + 4 * idx) (t + 7) (m.loaded + 4 * i) (λ e. ne (omega (arith, e)))

  frame_new : frame_of (entry_at (tabled m idx t manager) idx) ≡ t
  frame_new = omega (arith, entry_new, whole)

  -- The table's frame was free, so no table of another entry lies in it.
  frame_old :
      (i : ℕ)
      → i < 1024
      → i ≢ idx
      → entry_at (tabled m idx t manager) i % 2 ≡ 1
      → frame_of (entry_at (tabled m idx t manager) i) ≢ t
  frame_old i hi ne p clash =
      let old = entry_old i ne in
      s.held i k hi (ap (λ z. z % 2) (sym old) ∙ p) new.inside new.was_free
        (ap frame_of (sym old) ∙ clash ∙ new.address)

  pub tabled-SelfMapped : SelfMapped (tabled m idx t manager)
  unfolding tabled
  tabled-SelfMapped =
      let old = entry_old 1023 (omega (arith, inside)) in
      record {
        on = new.paging_kept ∙ s.self_mapped.on;
        whole = s.self_mapped.whole;
        self = ap frame_of old ∙ s.self_mapped.self;
        present = ap (λ z. z % 2) old ∙ s.self_mapped.present;
      }

  pub tabled-apart : TablesApart (tabled m idx t manager)
  tabled-apart i j hi hj ne pi pj clash = elim (Bool-cases (i == idx)) [
    | inl first ↦
        let e : i ≡ idx = ground (arith, first) in
        frame_old j hj (omega (arith, e, ne)) pj
          (sym clash ∙ ap (λ z. frame_of (entry_at (tabled m idx t manager) z)) e ∙ frame_new)
    | inr a ↦ elim (Bool-cases (j == idx)) [
      | inl second ↦
          let e : j ≡ idx = ground (arith, second) in
          frame_old i hi (omega (arith, e, ne)) pi
            (clash ∙ ap (λ z. frame_of (entry_at (tabled m idx t manager) z)) e ∙ frame_new)
      | inr b ↦
          let ni : i ≢ idx = ground (arith, a) in
          let nj : j ≢ idx = ground (arith, b) in
          s.apart i j hi hj ne (ap (λ z. z % 2) (sym (entry_old i ni)) ∙ pi)
            (ap (λ z. z % 2) (sym (entry_old j nj)) ∙ pj)
            (ap frame_of (sym (entry_old i ni)) ∙ clash ∙ ap frame_of (entry_old j nj))
    ]
  ]

  pub tabled-held : TablesHeld (tabled m idx t manager)
  unfolding tabled
  tabled-held i j hi p low free clash =
      let differ : j ≢ k = λ e.
        let taken : manager.frames j ≡ page_used = ap manager.frames e ∙ new.now_used in
        omega (arith, taken, free) in
      let before : m.manager.frames j ≡ page_free = sym (new.others j differ) ∙ free in
      elim (Bool-cases (i == idx)) [
        | inl here ↦
            let e : i ≡ idx = ground (arith, here) in
            let at : t ≡ manager.pageframes_base + j * page_size =
              sym (ap (λ z. frame_of (entry_at (tabled m idx t manager) z)) e ∙ frame_new)
              ∙ clash in
            differ (omega (arith, at, new.address, new.base_kept))
        | inr there ↦
            let ne : i ≢ idx = ground (arith, there) in
            s.held i j hi (ap (λ z. z % 2) (sym (entry_old i ne)) ∙ p)
              (omega (arith, low, new.size_kept)) before
              (ap frame_of (sym (entry_old i ne))
                ∙ clash
                ∙ ap (λ z. z + j * page_size) new.base_kept)
      ]

  pub tabled-settled :
      (i : ℕ)
      → i < 1024
      → (entry_at (tabled m idx t manager) i ≡ 0) ⊎ (entry_at (tabled m idx t manager) i % 2 ≡ 1)
  tabled-settled i hi = elim (Bool-cases (i == idx)) [
    | inl here ↦
        let e : i ≡ idx = ground (arith, here) in
        inr (ap (λ z. entry_at (tabled m idx t manager) z % 2) e ∙ omega (arith, entry_new, whole))
    | inr there ↦
        let ne : i ≢ idx = ground (arith, there) in
        subst (λ z. (z ≡ 0) ⊎ (z % 2 ≡ 1)) (sym (entry_old i ne)) (s.settled i hi)
  ]

  pub tabled-IsSound : IsSound (tabled m idx t manager)
  unfolding tabled
  tabled-IsSound = record {
    self_mapped = tabled-SelfMapped;
    apart = tabled-apart;
    held = tabled-held;
    settled = tabled-settled;
    allocator = new.valid;
    base_whole = ap (λ z. z % 4096) new.base_kept ∙ s.base_whole;
  }

  unloaded : SelfMapped (record m { manager = manager })
  unloaded =
      let v = s.self_mapped in
      record { on = new.paging_kept ∙ v.on; whole = v.whole; self = v.self; present = v.present }

  new_table-tabled :
      (d : PageDirectory)
      → d.virt_directory_ptr ≡ page_dir_virtual_loc
      → alloc_pageframe m.manager ≡ some (t, manager)
      → new_table d m idx ≡ some (t, tabled m idx t manager)
  unfolding new_table new_page tabled
  new_table-tabled d at got =
      let stored =
        store-translate (record m { manager = manager }) (add32 page_dir_virtual_loc (4 * idx))
          (m.loaded + 4 * idx) (bit_or t 7)
          (translate-directory (record m { manager = manager }) unloaded idx
            (omega (arith, inside))) in
      rw (at, got, stored, bit_or-page t 7 whole (omega arith)) refl

  pub get_page_table-absent :
      (d : PageDirectory)
      → d.virt_directory_ptr ≡ page_dir_virtual_loc
      → alloc_pageframe m.manager ≡ some (t, manager)
      → get_page_table d m idx
        ≡ some (add32 page_tables_virtual_loc (4096 * idx), tabled m idx t manager)
  unfolding get_page_table
  get_page_table-absent d at got =
      let zero : (entry_at m idx == 0) ≡ true = ground (arith, absent) in
      let found = load-directory m s.self_mapped idx (omega (arith, inside)) in
      rw (new_table-tabled d at got, at, found, zero, s.self_mapped.on) refl

  -- A walk to another 4 MB does not go by the new entry, and does not read the frame as a table.
  pub tabled-others :
      (addr : ℕ)
      → addr < page_tables_virtual_loc
      → addr / 4194304 ≢ idx
      → translate (tabled m idx t manager) addr ≡ translate m addr
  unfolding tabled
  tabled-others addr low ne =
      let j = addr / 4194304 in
      let v' = tabled-SelfMapped in
      let old = entry_old j ne in
      translate-walk (tabled m idx t manager) addr v'.on
      ∙ ap
          (λ z.
            walk z ((tabled m idx t manager).words (frame_of z + 4 * (addr / 4096 % 1024)))
              (addr % 4096))
          old
      ∙ elim (Bool-cases (entry_at m j % 2 == 1)) [
        | inl present ↦
            let p : entry_at m j % 2 ≡ 1 = ground (arith, present) in
            let frames =
              s.apart j 1023 (omega (arith, low)) (omega arith) (omega (arith, low)) p
                s.self_mapped.present in
            let stays =
              update_ne m.words (m.loaded + 4 * idx) (t + 7)
                (frame_of (entry_at m j) + 4 * (addr / 4096 % 1024))
                (omega (arith, frames, s.self_mapped.self, s.self_mapped.whole, inside)) in
            ap (λ z. walk (entry_at m j) z (addr % 4096)) stays
        | inr absent_too ↦ rw absent_too refl
      ]
      ∙ sym (translate-walk m addr s.self_mapped.on)
