-- ===== src/Memory/Paging/Boot.antt =====
-- kernel/memory/pagedirectory.cpp: the first page directory, made before paging is on.
use Prim.Native.Nat.{bit_or}
use nekosys.Base.{
  ℕ, zero, suc, ◌+◌, ◌*◌, ◌%◌, ◌≤◌, ◌<◌, ◌≡◌, ◌≢◌, ◌⊎◌, refl, sym, ap, ◌∙◌, subst, true, false,
  none, some, ◌==◌, arith, Bool-cases, inl, inr,
}
use nekosys.Base.Words.{word, add32}
use nekosys.Base.Masks.{bit_or-page}
use nekosys.Memory.PageManager.{
  PageManager, IsValid, page_size, page_used, update, alloc_pageframe, enable_paging,
}
use nekosys.Memory.PageManager.Alloc.{Allocated, alloc_pageframe_first_free}
use nekosys.Memory.Paging.{
  Machine, PageDirectory, frame_of, translate, store, new_page, clear_loop, new_directory, map_self,
  load_directory, ◌>>=◌,
}
use nekosys.Memory.Paging.Mapping.{entry_at, update_self, update_ne}
use nekosys.Memory.Paging.Tables.{IsSound}

store_unpaged :
    (m : Machine) (addr v : ℕ)
    → m.manager.paging_enabled ≡ false
    → store m addr v ≡ some (record m { words = update m.words addr v })
unfolding store translate
store_unpaged m addr v off = simp off refl

-- The words are cleared, and the others stay.
record Cleared (m : Machine) (ptr n i : ℕ) (m' : Machine) : Type 0 where
  cleared : (j : ℕ) → i ≤ j → j < i + n → m'.words (ptr + 4 * j) ≡ 0
  kept : (a : ℕ) → a < ptr + 4 * i → m'.words a ≡ m.words a
  same : m' ≡ record m { words = m'.words }

clear_loop-Cleared :
    (m : Machine) (ptr n i : ℕ)
    → m.manager.paging_enabled ≡ false
    → ptr + 4 * (i + n) ≤ word
    → (m' : Machine) × (clear_loop m ptr n i ≡ some m') × Cleared m ptr n i m'
unfolding clear_loop
clear_loop-Cleared m ptr zero i off fits =
    (m, refl, record { cleared = λ j lo hi. absurd (omega arith); kept = λ a h. refl; same = refl })
clear_loop-Cleared m ptr (suc n) i off fits =
    let place : add32 ptr (4 * i) ≡ ptr + 4 * i = omega (arith, fits) in
    let m1 = record m { words = update m.words (ptr + 4 * i) 0 } in
    let (m', run, c) = clear_loop-Cleared m1 ptr n (i + 1) off (omega (arith, fits)) in
    (
      m',
      ap (λ z. store m z 0 >>= λ next. clear_loop next ptr n (i + 1)) place
          ∙ rw (store_unpaged m (ptr + 4 * i) 0 off) run,
      record {
        cleared = λ j lo hi. elim (Bool-cases (j == i)) [
          | inl here ↦
              let e : j ≡ i = ground (arith, here) in
              ap (λ z. m'.words (ptr + 4 * z)) e
              ∙ c.kept (ptr + 4 * i) (omega arith)
              ∙ update_self m.words (ptr + 4 * i) 0
          | inr there ↦ c.cleared j (ground (arith, there, lo)) (omega (arith, hi))
        ];
        kept = λ a h.
            c.kept a (omega (arith, h)) ∙ update_ne m.words (ptr + 4 * i) 0 a (omega (arith, h));
        same = c.same;
      },
    )

-- The directory is empty but for its map of itself, and paging is on.
abbrev pub start_paging : Machine → Machine
start_paging m = record m { manager = enable_paging m.manager }

-- A directory whose entries are 0 but for the last, which is the directory, in a frame in use.
boot-IsSound :
    (words : ℕ → ℕ) (manager : PageManager) (k t : ℕ)
    → IsValid manager
    → manager.pageframes_base % 4096 ≡ 0
    → manager.paging_enabled ≡ true
    → t ≡ manager.pageframes_base + k * page_size
    → manager.frames k ≡ page_used
    → ((i : ℕ) → i < 1023 → words (t + 4 * i) ≡ 0)
    → words (t + 4092) ≡ t + 3
    → IsSound (record { words = words; manager = manager; loaded = t })
boot-IsSound words manager k t valid base on at used clear self =
    let whole : t % 4096 ≡ 0 = omega (arith, at, base) in
    let only : (i : ℕ) → i < 1024 → words (t + 4 * i) % 2 ≡ 1 → i ≡ 1023 = λ i hi p.
      elim (Bool-cases (i == 1023)) [
        | inl last ↦ ground (arith, last)
        | inr early ↦ absurd (
            let ne : i ≢ 1023 = ground (arith, early) in
            omega (arith, clear i (omega (arith, hi, ne)), p))
      ] in
    record {
      self_mapped = record {
        on = on;
        whole = whole;
        self = omega (arith, self, whole);
        present = omega (arith, self, whole);
      };
      apart = λ i j hi hj ne pi pj clash. ne (omega (arith, only i hi pi, only j hj pj));
      held = λ i j hi p inside free clash.
          let last = only i hi p in
          let frame : t ≡ manager.pageframes_base + j * page_size =
            omega (arith, ap (λ z. frame_of (words (t + 4 * z))) last, clash, self, whole) in
          let same : j ≡ k = omega (arith, frame, at) in
          let taken : manager.frames j ≡ page_used = ap manager.frames same ∙ used in
          omega (arith, taken, free);
      settled = λ i hi. elim (Bool-cases (i == 1023)) [
        | inl last ↦
            let e : i ≡ 1023 = ground (arith, last) in
            inr (ap (λ z. words (t + 4 * z) % 2) e ∙ omega (arith, self, whole))
        | inr early ↦
            let ne : i ≢ 1023 = ground (arith, early) in inl (clear i (omega (arith, hi, ne)))
      ];
      allocator = valid;
      base_whole = base;
    }

module _ (m : Machine) (off : m.manager.paging_enabled ≡ false) (valid : IsValid m.manager)
    (base : m.manager.pageframes_base % 4096 ≡ 0) where
  new_directory-made :
      (k t : ℕ) (manager : PageManager)
      → alloc_pageframe m.manager ≡ some (t, manager)
      → Allocated m.manager k t manager
      → (m1 : Machine) × (new_directory m
          ≡ some (record { phys_directory_ptr = t; virt_directory_ptr = t }, m1))
        × Cleared (record m { manager = manager }) t 1024 0 m1
  unfolding new_directory new_page
  new_directory-made k t manager got new =
      let (m1, run, c) =
        clear_loop-Cleared (record m { manager = manager }) t 1024 0 (new.paging_kept ∙ off)
          (omega (arith, new.address, new.inside, valid.fits)) in
      (m1, rw (got, run, new_directory) (rw off refl), c)

  -- Where a frame is free, a new page directory that maps itself, is loaded and has paging switched
  -- on gives a sound state, in which nothing else is mapped: what MapPage needs from then on.
  pub boot_paging :
      ((d : PageDirectory) × (m1 m2 : Machine) × (new_directory m ≡ some (d, m1))
        × (map_self d m1 ≡ some m2)
        × IsSound (start_paging (load_directory d m2).1)
        × ((i : ℕ) → i < 1023 → entry_at (start_paging (load_directory d m2).1) i ≡ 0))
      ⊎ (alloc_pageframe m.manager ≡ none)
  unfolding map_self load_directory enable_paging
  boot_paging = elim (alloc_pageframe_first_free valid) [
    | inr (full, _) ↦ inr full
    | inl (k, t, manager, got, new) ↦
        let (m1, run, c) = new_directory-made k t manager got new in
        let d : PageDirectory = record { phys_directory_ptr = t; virt_directory_ptr = t } in
        let keeps : m1.manager ≡ manager = ap (λ (z : Machine). z.manager) c.same in
        let whole : t % 4096 ≡ 0 = omega (arith, new.address, base) in
        let place : add32 t (4 * 1023) ≡ t + 4092 =
          omega (arith, new.address, new.inside, valid.fits) in
        let m2 = record m1 { words = update m1.words (t + 4092) (t + 3) } in
        let clear : (i : ℕ) → i < 1023 → update m1.words (t + 4092) (t + 3) (t + 4 * i) ≡ 0 =
          λ i hi.
            update_ne m1.words (t + 4092) (t + 3) (t + 4 * i) (omega (arith, hi))
            ∙ c.cleared i (omega arith) (omega (arith, hi)) in
        inl (
          d,
          m1,
          m2,
          run,
          ap (λ z. store m1 z (bit_or t 3)) place
              ∙ ap (store m1 (t + 4092)) (bit_or-page t 3 whole (omega arith))
              ∙ store_unpaged m1 (t + 4092) (t + 3)
                  (ap (λ (z : PageManager). z.paging_enabled) keeps ∙ new.paging_kept ∙ off),
          subst
              (λ (z : PageManager). IsSound (record {
                words = update m1.words (t + 4092) (t + 3);
                manager = record z { paging_enabled = true };
                loaded = t;
              }))
              (sym keeps)
              (boot-IsSound (update m1.words (t + 4092) (t + 3))
                (record manager { paging_enabled = true }) k t
                (record {
                  hint = new.valid.hint;
                  hint_in = new.valid.hint_in;
                  flags = new.valid.flags;
                  fits = new.valid.fits;
                  placed = new.valid.placed;
                })
                (ap (λ z. z % 4096) new.base_kept ∙ base) refl
                (new.address ∙ ap (λ z. z + k * page_size) (sym new.base_kept)) new.now_used clear
                (update_self m1.words (t + 4092) (t + 3))),
          clear,
        )
  ]
