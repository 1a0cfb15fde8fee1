-- ===== src/Memory/PageManager/Alloc.antt =====
-- kernel/memory/pagemanager.cpp: AllocPageframe and FreePageframe.
use nekosys.Base.{
  ℕ, zero, suc, ◌+◌, ◌-◌, ◌*◌, ◌≤◌, ◌<◌, ◌≡◌, ◌≢◌, ◌⊎◌, refl, sym, ap, ◌∙◌, inl, inr, none, some,
  ltb, ◌==◌, arith, Bool-cases, Option-cases, ==_iff,
}
use mathlib.Core.Path.{subst}
use mathlib.Core.Option.{some-injective}
use nekosys.Memory.PageManager.{
  PageManager, IsValid, page_size, page_used, page_free, update, frame_address, frame_index,
  find_free, alloc_pageframe, free_pageframe,
}

module _ (frames : ℕ → ℕ) where
  find_free-some :
      (n i k : ℕ) → find_free frames n i ≡ some k → (i ≤ k) × (k < i + n) × (frames k ≡ page_free)
  unfolding find_free
  find_free-some zero i k e = cc
  find_free-some (suc n) i k e = ground (arith, find_free-some n (i + 1) k)

  find_free_least :
      (n i k j : ℕ) → find_free frames n i ≡ some k → i ≤ j → j < k → frames j ≢ page_free
  unfolding find_free
  find_free_least zero i k j e h l = cc
  find_free_least (suc n) i k j e h l =
      ground (arith, find_free_least n (i + 1) k j, ap frames {x = i} {y = j})

  find_free-none :
      (n i j : ℕ) → find_free frames n i ≡ none → i ≤ j → j < i + n → frames j ≢ page_free
  unfolding find_free
  find_free-none zero i j e h l p = absurd (omega arith)
  find_free-none (suc n) i j e h l p =
      ground (arith, find_free-none n (i + 1) j, ap frames {x = i} {y = j})

pub frame_index-frame_address :
    (m : PageManager) (i : ℕ) → IsValid m → i < m.num_pages → frame_index m (frame_address m i) ≡ i
frame_index-frame_address m i v h = omega (arith, v.fits)

-- What a successful AllocPageframe has done: frame `i` was the first free one, its address is
-- returned, and its byte of the map is the only one that changed.
pub record Allocated (m : PageManager) (i a : ℕ) (m' : PageManager) : Type 0 where
  pub inside : i < m.num_pages
  pub address : a ≡ m.pageframes_base + i * page_size
  pub was_free : m.frames i ≡ page_free
  pub first : (j : ℕ) → j < i → m.frames j ≡ page_used
  pub now_used : m'.frames i ≡ page_used
  pub others : (j : ℕ) → j ≢ i → m'.frames j ≡ m.frames j
  pub size_kept : m'.num_pages ≡ m.num_pages
  pub base_kept : m'.pageframes_base ≡ m.pageframes_base
  pub paging_kept : m'.paging_enabled ≡ m.paging_enabled
  pub valid : IsValid m'

module _ {m : PageManager} (valid : IsValid m) where
  used_below :
      (i : ℕ)
      → i ≤ m.num_pages
      → ((j : ℕ) → m.last_page_idx ≤ j → j < i → m.frames j ≢ page_free)
      → (j : ℕ) → j < i
      → m.frames j ≡ page_used
  used_below i hi none_free j h = elim (Bool-cases (ltb j m.last_page_idx)) [
    | inl below ↦ valid.hint j (ground arith)
    | inr above ↦ elim (valid.flags j (omega arith)) [
      | inl free ↦ absurd (none_free j (ground arith) h free)
      | inr used ↦ used
    ]
  ]

  alloc_found :
      (i : ℕ)
      → find_free m.frames (m.num_pages - m.last_page_idx) m.last_page_idx ≡ some i
      → Allocated m i
          (frame_address m i)
          (record m { frames = update m.frames i page_used; last_page_idx = i })
  alloc_found i e =
      let found = find_free-some m.frames _ _ i e in
      let inside : i < m.num_pages = omega (arith, valid.hint_in) in
      let first = used_below i (omega arith) (λ j. find_free_least m.frames _ _ i j e) in
      record {
        inside = inside;
        address = omega (arith, valid.fits);
        was_free = found.2;
        first = first;
        now_used = ground arith;
        others = λ j h. ground arith;
        size_kept = refl;
        base_kept = refl;
        paging_kept = refl;
        valid = record {
          hint = λ j h. ground (arith, first j);
          hint_in = omega arith;
          flags = λ j h. ground (arith, valid.flags j);
          fits = valid.fits;
          placed = valid.placed;
        };
      }

  -- In a valid state AllocPageframe takes the first free frame of all: it returns that frame's
  -- address, marks it used, changes no other byte of the map and keeps the state valid. Otherwise
  -- it panics, and then every frame is used.
  pub alloc_pageframe_first_free :
      ((i a : ℕ) × (m' : PageManager) × (alloc_pageframe m ≡ some (a, m')) × Allocated m i a m')
      ⊎ ((alloc_pageframe m ≡ none) × ((j : ℕ) → j < m.num_pages → m.frames j ≡ page_used))
  unfolding alloc_pageframe
  alloc_pageframe_first_free =
      elim (Option-cases (find_free m.frames (m.num_pages - m.last_page_idx) m.last_page_idx)) [
        | inl e ↦ inr (
          rw (e, alloc_pageframe),
          λ j h.
              used_below m.num_pages (omega arith)
                (λ k lo hi. find_free-none m.frames _ _ k e lo (omega (arith, valid.hint_in))) j h,
        )
        | inr (i, e) ↦ inl (i, _, _, rw (e, alloc_pageframe), alloc_found i e)
      ]

  module _ (frame : ℕ) (inside : frame_index m frame < m.num_pages) where
    -- FreePageframe of an address inside the managed frames marks exactly that frame free and
    -- keeps the state valid, the search hint included.
    pub free_pageframe_frees :
        IsValid (free_pageframe m frame)
        × ((free_pageframe m frame).frames (frame_index m frame) ≡ page_free)
        × ((j : ℕ) → j ≢ frame_index m frame → (free_pageframe m frame).frames j ≡ m.frames j)
    unfolding free_pageframe
    free_pageframe_frees = (
      record {
        hint = λ j h. ground (arith, valid.hint j);
        hint_in = ground (arith, valid.hint_in);
        flags = λ j h. ground (arith, valid.flags j);
        fits = ground (arith, valid.fits);
        placed = ground (arith, valid.placed);
      },
      ground arith,
      λ j h. ground arith,
    )

free_Allocated :
    {m : PageManager} (m' : PageManager) (i a : ℕ)
    → Allocated m i a m'
    → (j : ℕ) → (free_pageframe m' a).frames j ≡ m.frames j
free_Allocated {m} m' i a h j =
    let e : frame_index m' a ≡ i =
      omega (arith, h.valid.fits, h.size_kept, h.base_kept, h.inside, h.address) in
    let freed = free_pageframe_frees h.valid a (omega (arith, h.inside, h.size_kept)) in
    elim (Bool-cases (j == i)) [
      | inl same ↦ let s : j ≡ i = (==_iff j i).0 same in rw (s, h.was_free) (rw e at freed.1)
      | inr other ↦
          let n : j ≢ i = λ q. ground (arith, other, q) in freed.2 j (rw e n) ∙ h.others j n
    ]

-- Freeing the frame that AllocPageframe has returned restores every byte of the map.
pub free-alloc_pageframe :
    {m : PageManager} (m' : PageManager) (a : ℕ)
    → IsValid m
    → alloc_pageframe m ≡ some (a, m')
    → (j : ℕ) → (free_pageframe m' a).frames j ≡ m.frames j
free-alloc_pageframe {m} m' a v e j = elim (alloc_pageframe_first_free v) [
  | inl (i, b, n, q, h) ↦
      subst (λ (p : ℕ × PageManager). (free_pageframe p.1 p.0).frames j ≡ m.frames j)
        (some-injective (b, n) (a, m') (sym q ∙ e)) (free_Allocated n i b h j)
  | inr (q, _) ↦ cc
]
