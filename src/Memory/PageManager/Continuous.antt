-- ===== src/Memory/PageManager/Continuous.antt =====
-- kernel/memory/pagemanager.cpp: AllocContinuous.
use nekosys.Base.{
  ℕ, zero, suc, ◌+◌, ◌-◌, ◌*◌, ◌≤◌, ◌<◌, ◌≡◌, ◌≢◌, ◌⊎◌, refl, ap, inl, inr, true, some, ltb, leb,
  ◌&&◌, ◌==◌, if◌then◌else◌, arith, Bool-cases, Option-cases, ltb→le,
}
use nekosys.Base.Words.{word, add32}
use nekosys.Memory.PageManager.{
  PageManager, IsValid, page_size, page_used, update, frame_address, none_used, mark_loop,
  find_continuous, alloc_continuous,
}

module _ (frames : ℕ → ℕ) where
  -- None of the `n` bytes from `i` on is marked used.
  abbrev pub Unused : ℕ → ℕ → Type 0
  Unused i n = (j : ℕ) → i ≤ j → j < i + n → frames j ≢ page_used

  none_used_sound :
      (i n j : ℕ) → i + j + n ≤ word → none_used frames i n j ≡ true → Unused (i + j) n
  unfolding none_used
  none_used_sound i zero j w e k lo hi u = absurd (omega arith)
  none_used_sound i (suc n) j w e k lo hi u = elim (Bool-cases (frames (add32 i j) == page_used)) [
    | inl hit ↦ ground (arith, hit)
    | inr miss ↦
        let rest : none_used frames i n (j + 1) ≡ true = ground (arith, miss) in
        let ne : i + j ≢ k = λ q. ground (arith, miss, ap frames {x = add32 i j} {y = k}) in
        none_used_sound i n (j + 1) (omega arith) rest k (omega (arith, ne)) (omega arith) u
  ]

  none_used_complete :
      (i n j : ℕ) → i + j + n ≤ word → Unused (i + j) n → none_used frames i n j ≡ true
  unfolding none_used
  none_used_complete i zero j w u = refl
  none_used_complete i (suc n) j w u =
      let e : add32 i j ≡ i + j = omega arith in
      ground (
        arith,
        u (i + j),
        ap frames e,
        none_used_complete i n (j + 1) (omega arith) (λ k lo hi. u k (omega arith) (omega arith)),
      )

  find_continuous-some :
      (pages n i k : ℕ)
      → i + n + pages ≤ word
      → find_continuous frames pages n i ≡ some k
      → (i ≤ k) × (k < i + n) × Unused k pages
  unfolding find_continuous
  find_continuous-some pages zero i k w e = cc
  find_continuous-some pages (suc n) i k w e = elim (Bool-cases (none_used frames i pages 0)) [
    | inl hit ↦
        let q : k ≡ i = ground (arith, hit) in
        let all : Unused (i + 0) pages = none_used_sound i pages 0 (omega arith) hit in
        (omega arith, omega arith, λ j lo hi. all j (omega arith) (omega arith))
    | inr miss ↦
        let rest = find_continuous-some pages n (i + 1) k (omega arith) (ground (arith, miss)) in
        (omega (arith, rest.0), omega (arith, rest.1), rest.2)
  ]

  find_continuous_finds :
      (pages n i k : ℕ)
      → i + n + pages ≤ word
      → i ≤ k
      → k < i + n
      → Unused k pages
      → (j : ℕ) × (find_continuous frames pages n i ≡ some j) × (j ≤ k)
  unfolding find_continuous
  find_continuous_finds pages zero i k w lo hi u = absurd (omega arith)
  find_continuous_finds pages (suc n) i k w lo hi u =
      elim (Bool-cases (none_used frames i pages 0)) [
        | inl hit ↦ (i, ground (arith, hit), lo)
        | inr miss ↦
            let ne : i ≢ k = λ q.
              let all : Unused (i + 0) pages = λ j a b. u j (omega (arith, q)) (omega (arith, q)) in
              ground (arith, miss, none_used_complete i pages 0 (omega arith) all) in
            let (j, e, le) =
              find_continuous_finds pages n (i + 1) k (omega arith) (omega (arith, ne))
                (omega arith) u in
            (j, ground (arith, miss, e), le)
      ]

mark_loop_lem :
    (frames : ℕ → ℕ) (i n j k : ℕ)
    → i + j + n ≤ word
    → mark_loop frames i n j k
      ≡ (if leb (i + j) k && ltb k (i + j + n) then page_used else frames k)
unfolding mark_loop
mark_loop_lem frames i zero j k w = ground arith
mark_loop_lem frames i (suc n) j k w =
    ground (arith, mark_loop_lem (update frames (add32 i j) page_used) i n (j + 1) k)

-- What a successful AllocContinuous has done: from byte `i` on, `pages` bytes of the map are newly
-- marked used, no other byte has changed, and no earlier byte of the map starts such a run.
pub record Continuous (m : PageManager) (pages i a : ℕ) (m' : PageManager) : Type 0 where
  pub inside : i < m.num_pages
  pub address : a ≡ m.pageframes_base + i * page_size
  pub were_unused : Unused m.frames i pages
  pub marked :
      (j : ℕ) → m'.frames j ≡ (if leb i j && ltb j (i + pages) then page_used else m.frames j)
  pub first : (j : ℕ) → Unused m.frames j pages → i ≤ j
  pub valid : IsValid m'

module _ {m : PageManager} (valid : IsValid m) (pages : ℕ)
    (no_wrap : m.num_pages + pages ≤ word) where
  Continuous-found :
      (i : ℕ)
      → find_continuous m.frames pages m.num_pages 0 ≡ some i
      → Continuous m pages i
          (frame_address m i)
          (record m { frames = mark_loop m.frames i pages 0 })
  Continuous-found i e =
      let found = find_continuous-some m.frames pages m.num_pages 0 i (omega arith) e in
      let mark = λ (j : ℕ). mark_loop_lem m.frames i pages 0 j (omega (arith, found.1)) in
      record {
        inside = omega (arith, found.1);
        address = omega (arith, valid.fits, found.1);
        were_unused = found.2;
        marked = λ j. ground (arith, mark j);
        first = λ j u. elim (Bool-cases (ltb j m.num_pages)) [
          | inl below ↦
              let (k, q, le) =
                find_continuous_finds m.frames pages m.num_pages 0 j (omega arith) (omega arith)
                  (ground (arith, below)) u in
              let same : i ≡ k = ground (arith, e, q) in omega arith
          | inr beyond ↦ omega (arith, found.1, ltb→le j m.num_pages beyond)
        ];
        valid = record {
          hint = λ j h. ground (arith, mark j, valid.hint j);
          hint_in = valid.hint_in;
          flags = λ j h. ground (arith, mark j, valid.flags j);
          fits = valid.fits;
          placed = valid.placed;
        };
      }

  -- In a valid state, where the indices do not wrap, AllocContinuous either marks `pages`
  -- consecutive unused bytes of the map used, returns the address of the first of their frames and
  -- keeps the state valid; or it returns 0, changes nothing, and from no frame on are the next
  -- `pages` bytes all unused.
  pub alloc_continuous_marks :
      ((i a : ℕ) × (m' : PageManager) × (alloc_continuous m pages ≡ (a, m'))
        × Continuous m pages i a m')
      ⊎ ((alloc_continuous m pages ≡ (0, m))
          × ((i : ℕ) → i < m.num_pages → ¬ Unused m.frames i pages))
  unfolding alloc_continuous
  alloc_continuous_marks = elim (Option-cases (find_continuous m.frames pages m.num_pages 0)) [
    | inl e ↦ inr (
      rw (e, alloc_continuous),
      λ i h u.
          let (j, q, _) =
            find_continuous_finds m.frames pages m.num_pages 0 i (omega arith) (omega arith)
              (omega arith) u in
          cc,
    )
    | inr (i, e) ↦ inl (i, _, _, rw (e, alloc_continuous), Continuous-found i e)
  ]

  -- AllocContinuous does not see the end of its frames: if all frames but the last `k` are used,
  -- those are free, and the bytes behind the map are not marked used, it returns the address of the
  -- first free frame also where fewer than `pages` frames are left, so that the run passes the end.
  pub alloc_continuous_overruns :
      (k : ℕ)
      → 0 < k
      → k < pages
      → k ≤ m.num_pages
      → ((j : ℕ) → j < m.num_pages - k → m.frames j ≡ page_used)
      → Unused m.frames (m.num_pages - k) pages
      → ((alloc_continuous m pages).0 ≡ m.pageframes_base + (m.num_pages - k) * page_size)
        × (m.num_pages < m.num_pages - k + pages)
  alloc_continuous_overruns k pos few le used unused = elim alloc_continuous_marks [
    | inl (i, a, m', e, h) ↦
        let lower : ¬ (i < m.num_pages - k) =
          λ q. h.were_unused i (omega arith) (omega arith) (used i q) in
        let upper : i ≤ m.num_pages - k = h.first (m.num_pages - k) unused in
        let same : i ≡ m.num_pages - k = omega arith in (rw (e, ← same) h.address, omega arith)
    | inr (e, nowhere) ↦ absurd (nowhere (m.num_pages - k) (omega arith) unused)
  ]
