-- ===== src/Memory/Paging/Promise.antt =====
-- kernel/memory/pagedirectory.cpp: what MapPage promises, whether a table is there or not.
use nekosys.Base.{
  ℕ, ◌+◌, ◌*◌, ◌/◌, ◌%◌, ◌<◌, ◌≡◌, ◌≢◌, ◌⊎◌, refl, sym, ap, ◌∙◌, subst, true, false, none, some,
  ◌==◌, arith, inl, inr,
}
use mathlib.Core.Option.{some-injective}
use nekosys.Memory.PageManager.{PageManager, alloc_pageframe}
use nekosys.Memory.PageManager.Alloc.{Allocated, alloc_pageframe_first_free}
use nekosys.Memory.Paging.{
  Machine, PageDirectory, page_tables_virtual_loc, page_dir_virtual_loc, frame_of, translate,
  get_page_table, new_table, new_page, map_page,
}
use nekosys.Memory.Paging.Mapping.{
  Mapped, entry_at, translate-walk, walk-present, load-directory, written, place, entries_stay,
  written-Mapped, flags_of, flags_of_bounds, get_page_table-present, map_page-table,
  is_page_aligned-mod,
}
use nekosys.Memory.Paging.Tables.{
  IsSound, IsSound-entries, tabled, tabled-IsSound, tabled-others, get_page_table-absent, entry_new,
  whole,
}

-- The page is mapped, the state is sound, and the addresses of other pages are mapped as before, in
-- the same 4 MB too if they had a table.
pub record Remapped (m : Machine) (virtual physical : ℕ) (m' : Machine) : Type 0 where
  pub maps : (off : ℕ) → off < 4096 → translate m' (virtual + off) ≡ some (physical + off)
  pub others :
      (addr : ℕ)
      → addr < page_tables_virtual_loc
      → addr / 4194304 ≢ virtual / 4194304
      → translate m' addr ≡ translate m addr
  pub neighbours :
      (addr : ℕ)
      → addr < page_tables_virtual_loc
      → entry_at m (virtual / 4194304) % 2 ≡ 1
      → addr / 4096 ≢ virtual / 4096
      → translate m' addr ≡ translate m addr
  pub sound : IsSound m'

module _ (d : PageDirectory) (m : Machine) (s : IsSound m) (physical virtual permissions : ℕ)
    (at : d.virt_directory_ptr ≡ page_dir_virtual_loc) (pw : physical % 4096 ≡ 0)
    (vw : virtual % 4096 ≡ 0) (low : virtual < page_tables_virtual_loc) where
  -- Where the table is there, in a sound state.
  present_Remapped :
      (m1 : Machine)
      → IsSound m1
      → entry_at m1 (virtual / 4194304) % 2 ≡ 1
      → IsSound (written m1 virtual physical (flags_of permissions))
        × Mapped m1 virtual physical (written m1 virtual physical (flags_of permissions))
  unfolding written
  present_Remapped m1 s1 there =
      let (odd, small) = flags_of_bounds permissions in
      let v = s1.self_mapped in
      let mapped =
        written-Mapped m1 v s1.apart virtual physical (flags_of permissions) vw low there pw odd
          small in
      let same =
        entries_stay m1 v s1.apart virtual physical (flags_of permissions) vw low there pw odd
          small in
      (
        IsSound-entries m1 (written m1 virtual physical (flags_of permissions)) s1 refl refl
            mapped.self_mapped same,
        mapped,
      )

  fresh_Remapped :
      (k t : ℕ) (manager : PageManager)
      → entry_at m (virtual / 4194304) ≡ 0
      → alloc_pageframe m.manager ≡ some (t, manager)
      → Allocated m.manager k t manager
      → (m' : Machine) × (map_page d m physical virtual permissions ≡ some (true, m'))
        × Remapped m virtual physical m'
        × (m'
            ≡ written
                (tabled m (virtual / 4194304) t manager)
                virtual
                physical
                (flags_of permissions))
  fresh_Remapped k t manager absent got new =
      let idx = virtual / 4194304 in
      let inside : idx < 1023 = omega (arith, low) in
      let m1 = tabled m idx t manager in
      let s1 = tabled-IsSound m s idx k t manager inside absent new in
      let there : entry_at m1 idx % 2 ≡ 1 =
        omega (arith, entry_new m s idx k t manager inside absent new, new.address, s.base_whole) in
      let (sound, mapped) = present_Remapped m1 s1 there in
      (
        written m1 virtual physical (flags_of permissions),
        map_page-table d m m1 physical virtual permissions s1.self_mapped pw vw low there
            (get_page_table-absent m s idx k t manager inside absent new d at got),
        record {
          maps = mapped.maps;
          others = λ addr lt ne.
              mapped.others addr (omega (arith, lt)) (λ e. ne (omega (arith, e)))
              ∙ tabled-others m s idx k t manager inside absent new addr lt ne;
          neighbours = λ addr lt was ne. absurd (omega (arith, was, absent));
          sound = sound;
        },
        refl,
      )

  panics :
      entry_at m (virtual / 4194304) ≡ 0
      → alloc_pageframe m.manager ≡ none
      → map_page d m physical virtual permissions ≡ none
  unfolding map_page get_page_table new_table new_page
  panics absent full =
      let hi : virtual / 4096 / 1024 ≡ virtual / 4194304 = omega arith in
      let found = load-directory m s.self_mapped (virtual / 4194304) (omega (arith, low)) in
      let zero : (entry_at m (virtual / 4194304) == 0) ≡ true = ground (arith, absent) in
      rw
        (
          is_page_aligned-mod physical pw,
          is_page_aligned-mod virtual vw,
          hi,
          at,
          found,
          zero,
          full,
          s.self_mapped.on,
        )
        refl

  -- In a sound state, which has paging on, and for a directory that is reached through its own last
  -- entry, MapPage of a page-aligned address below the page tables' own, 0xFFC00000, to a page-aligned
  -- physical address either succeeds or panics. Where it succeeds, the state stays sound, the page's
  -- addresses are mapped to those of the physical page, and every other address below 0xFFC00000 is
  -- mapped as before, except those of the same 4 MB if they had no table yet. It panics only if a
  -- table is needed and no frame is free.
  pub map_page_maps :
      ((m' : Machine) × (map_page d m physical virtual permissions ≡ some (true, m'))
        × Remapped m virtual physical m')
      ⊎ ((map_page d m physical virtual permissions ≡ none)
          × (entry_at m (virtual / 4194304) ≡ 0)
          × (alloc_pageframe m.manager ≡ none))
  map_page_maps =
      let idx = virtual / 4194304 in
      let inside : idx < 1023 = omega (arith, low) in
      elim (s.settled idx (omega (arith, inside))) [
        | inr there ↦
            let (sound, mapped) = present_Remapped m s there in
            inl (
              written m virtual physical (flags_of permissions),
              map_page-table d m m physical virtual permissions s.self_mapped pw vw low there
                  (get_page_table-present d m idx s.self_mapped at (omega (arith, inside)) there),
              record {
                maps = mapped.maps;
                others = λ addr lt ne.
                    mapped.others addr (omega (arith, lt)) (λ e. ne (omega (arith, e)));
                neighbours = λ addr lt was ne. mapped.others addr (omega (arith, lt)) ne;
                sound = sound;
              },
            )
        | inl absent ↦ elim (alloc_pageframe_first_free s.allocator) [
          | inl (k, t, manager, got, new) ↦
              let (m', run, done, _) = fresh_Remapped k t manager absent got new in
              inl (m', run, done)
          | inr (full, _) ↦ inr (panics absent full, absent, full)
        ]
      ]

  leaks :
      (k t : ℕ) (manager : PageManager) (addr : ℕ)
      → entry_at m (virtual / 4194304) ≡ 0
      → Allocated m.manager k t manager
      → addr / 4194304 ≡ virtual / 4194304
      → addr / 4096 ≢ virtual / 4096
      → m.words (t + 4 * (addr / 4096 % 1024)) % 2 ≡ 1
      → translate
          (written (tabled m (virtual / 4194304) t manager) virtual physical (flags_of permissions))
          addr
        ≡ some (frame_of (m.words (t + 4 * (addr / 4096 % 1024))) + addr % 4096)
  unfolding written place tabled
  leaks k t manager addr absent new same ne garbage =
      let idx = virtual / 4194304 in
      let inside : idx < 1023 = omega (arith, low) in
      let m1 = tabled m idx t manager in
      let s1 = tabled-IsSound m s idx k t manager inside absent new in
      let tw = whole m s idx k t manager inside absent new in
      let entry = entry_new m s idx k t manager inside absent new in
      let there : entry_at m1 idx % 2 ≡ 1 = omega (arith, entry, tw) in
      let (odd, small) = flags_of_bounds permissions in
      let stay =
        entries_stay m1 s1.self_mapped s1.apart virtual physical (flags_of permissions) vw low there
          pw odd small idx (omega (arith, inside)) in
      let frame : frame_of (t + 7) ≡ t = omega (arith, tw) in
      let v = s.self_mapped in
      let apart : m.loaded ≢ t = λ e.
        s.held 1023 k (omega arith) v.present new.inside new.was_free (v.self ∙ e ∙ new.address) in
      let p = addr / 4096 % 1024 in
      let apart_entry : (t + 4 * p == m.loaded + 4 * idx) ≡ false =
        ground (arith, apart, tw, v.whole, inside) in
      let apart_page : (t + 4 * p == t + 4 * (virtual / 4096 % 1024)) ≡ false =
        ground (arith, ne, same) in
      translate-walk (written m1 virtual physical (flags_of permissions)) addr s1.self_mapped.on
      ∙ rw (same, stay, entry, frame, apart_page, apart_entry)
          (walk-present (t + 7) (m.words (t + 4 * p)) (addr % 4096) (omega (arith, tw)) garbage)

  unmapped :
      (addr : ℕ)
      → entry_at m (virtual / 4194304) ≡ 0
      → addr / 4194304 ≡ virtual / 4194304
      → translate m addr ≡ none
  unmapped addr absent same = translate-walk m addr s.self_mapped.on ∙ rw (same, absent) refl

  -- The frame of a fresh table keeps what it held: where a page of the same 4 MB had a word there
  -- that has the bit of a page that is present, it is mapped by that word from then on.
  pub map_page_leaks :
      (t : ℕ) (manager : PageManager) (addr : ℕ)
      → entry_at m (virtual / 4194304) ≡ 0
      → alloc_pageframe m.manager ≡ some (t, manager)
      → addr / 4194304 ≡ virtual / 4194304
      → addr / 4096 ≢ virtual / 4096
      → m.words (t + 4 * (addr / 4096 % 1024)) % 2 ≡ 1
      → (m' : Machine) × (map_page d m physical virtual permissions ≡ some (true, m'))
        × (translate m addr ≡ none)
        × (translate m' addr
            ≡ some (frame_of (m.words (t + 4 * (addr / 4096 % 1024))) + addr % 4096))
  map_page_leaks t manager addr absent got same ne garbage =
      elim (alloc_pageframe_first_free s.allocator) [
        | inr (full, _) ↦ cc
        | inl (k, u, other, run, new) ↦
            let (m', mapped, _, made) = fresh_Remapped k u other absent run new in
            let e : u ≡ t =
              ap (λ (z : ℕ × PageManager). z.0)
                (some-injective (u, other) (t, manager) (sym run ∙ got)) in
            let word_kept =
              subst (λ z. m.words (z + 4 * (addr / 4096 % 1024)) % 2 ≡ 1) (sym e) garbage in
            (
              m',
              mapped,
              unmapped addr absent same,
              ap (λ z. translate z addr) made
                  ∙ leaks k u other addr absent new same ne word_kept
                  ∙ ap (λ z. some (frame_of (m.words (z + 4 * (addr / 4096 % 1024))) + addr % 4096))
                      e,
            )
      ]
