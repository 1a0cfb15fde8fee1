-- ===== src/Memory/Heap/Blocks.antt =====
-- kernel/memory/heap.cpp: kmalloc and kfree.
use nekosys.Base.{
  ℕ, ◌+◌, ◌-◌, ◌*◌, ◌/◌, ◌%◌, ◌^◌, ◌≤◌, ◌<◌, ◌≡◌, ◌⊎◌, refl, ap, sym, ◌∙◌, true, false, none, some,
  ltb, leb, ◌==◌, ◌&&◌, if◌then◌else◌, arith, Bool-cases, Option-cases, inl, inr,
}
use mathlib.Core.Path.{subst}
use mathlib.Core.Option.{some-injective}
use nekosys.Base.Words.{word, add32, sub32}
use nekosys.Memory.Heap.{
  Heap, HeapEntry, IsValid, is_free, set_loop, units_loop, alloc_units, slot_address, heap_seg_size,
  sizeof_heap_entry, heap_init, calc_num_alloc_units, find_free_allocation_units, kmalloc, kfree,
}
use nekosys.Memory.Heap.Bitmap.{
  Run, is_free-set_loop, set_loop-IsBytes, set_loop-same, units_loop-some, units_loop-none,
}

-- The units of a block of `size` bytes and its header.
abbrev pub units_for : ℕ → ℕ
units_for size = (size + sizeof_heap_entry + heap_seg_size - 1) / heap_seg_size

-- What a successful kmalloc has done: `unit` starts the first run of free units that is long
-- enough, the block's bytes follow its header there, exactly the run's units are newly used, and
-- the header describes the run.
pub record Block (h : Heap) (size unit a : ℕ) (h' : Heap) : Type 0 where
  pub inside : unit + units_for size ≤ h.allocation_map_entries
  pub address : a ≡ h.heap_begin + unit * heap_seg_size + sizeof_heap_entry
  pub was_free : Run h unit (units_for size)
  pub first : (j : ℕ) → j < unit → ¬ Run h j (units_for size)
  pub bits :
      (v : ℕ)
      → is_free h' v ≡ (if leb unit v && ltb v (unit + units_for size) then false else is_free h v)
  pub header :
      h'.headers (h.heap_begin + unit * heap_seg_size)
      ≡ record { idx = unit; size = units_for size }
  pub same_begin : h'.heap_begin ≡ h.heap_begin
  pub valid : IsValid h'

is_free-headers :
    (h : Heap) (f : ℕ → HeapEntry) (v : ℕ) → is_free (record h { headers = f }) v ≡ is_free h v
unfolding is_free
is_free-headers h f v = refl

module _ {h : Heap} (valid : IsValid h) (size : ℕ) (small : size + 135 < 2 ^ 31) where
  calc_units : calc_num_alloc_units (add32 size sizeof_heap_entry) ≡ units_for size
  unfolding calc_num_alloc_units
  calc_units = ground arith

  Block-of :
      (unit : ℕ)
      → units_loop h h.allocation_map_entries 0 (units_for size) ≡ some unit
      → let marked = set_loop h unit (units_for size) 0 false in
        Block h size unit (add32 (slot_address h unit) sizeof_heap_entry) (record marked {
          headers = λ a.
              if a == slot_address h unit
              then record { idx = unit; size = units_for size }
              else h.headers a;
        })
  Block-of unit e =
      let found =
        units_loop-some h (units_for size) h.allocation_map_entries 0 unit (omega arith) e in
      let marked = set_loop h unit (units_for size) 0 false in
      let same = set_loop-same h unit (units_for size) 0 false in
      let begin : marked.heap_begin ≡ h.heap_begin = ap (λ (z : Heap). z.heap_begin) same in
      let entries : marked.allocation_map_entries ≡ h.allocation_map_entries =
        ap (λ (z : Heap). z.allocation_map_entries) same in
      let at : slot_address h unit ≡ h.heap_begin + unit * heap_seg_size =
        omega (arith, found.1, valid.fits) in
      record {
        inside = omega (arith, found.1);
        address = omega (arith, found.1, valid.fits);
        was_free = found.2;
        first = λ j lt. found.3 j (omega arith) lt;
        bits = λ v.
            is_free-headers marked _ v
            ∙ ground (arith, is_free-set_loop h unit (units_for size) 0 v false valid.bytes);
        header = ground (arith, ap (λ (x : ℕ). x) at);
        same_begin = begin;
        valid = record {
          bytes = set_loop-IsBytes h unit (units_for size) 0 false valid.bytes;
          fits = rw (begin, entries) valid.fits;
          placed = rw begin valid.placed;
        };
      }

  -- In a valid heap kmalloc of less than 2 GB either takes the first run of free units that holds
  -- the block and its header, and keeps the heap valid; or it panics, and no run of free units is
  -- long enough.
  pub kmalloc_first_fit :
      ((unit a : ℕ) × (h' : Heap) × (kmalloc h size ≡ some (a, h')) × Block h size unit a h')
      ⊎ ((kmalloc h size ≡ none)
          × ((k : ℕ) → k + units_for size ≤ h.allocation_map_entries → ¬ Run h k (units_for size)))
  unfolding kmalloc alloc_units find_free_allocation_units
  kmalloc_first_fit =
      elim (Option-cases (units_loop h h.allocation_map_entries 0 (units_for size))) [
        | inl e ↦ inr (
          ap (alloc_units h) calc_units ∙ rw (e, alloc_units, find_free_allocation_units),
          λ k le.
              units_loop-none h (units_for size) h.allocation_map_entries 0 (omega arith) e k
                (omega arith) (omega arith),
        )
        | inr (unit, e) ↦ inl (
          unit,
          _,
          _,
          ap (alloc_units h) calc_units ∙ rw (e, alloc_units, find_free_allocation_units),
          Block-of unit e,
        )
      ]

kfree-Block :
    {h : Heap} (size unit a : ℕ) (h' : Heap)
    → IsValid h
    → Block h size unit a h'
    → (v : ℕ) → is_free (kfree h' a) v ≡ is_free h v
unfolding kfree
kfree-Block {h} size unit a h' valid b v =
    let slot : sub32 a sizeof_heap_entry ≡ h.heap_begin + unit * heap_seg_size =
      omega (arith, b.address, b.inside, valid.fits) in
    let read : h'.headers (sub32 a sizeof_heap_entry)
        ≡ record { idx = unit; size = units_for size } =
      ap h'.headers slot ∙ b.header in
    let nonzero : (a == 0) ≡ false = ground (arith, b.address) in
    let cleared =
      is_free-set_loop h' unit (units_for size) 0 v true b.valid.bytes
        (omega (arith, b.inside, valid.fits)) in
    rw (nonzero, read) (ground (arith, cleared, b.bits v, b.was_free v))

-- kfree of a block that kmalloc has just returned makes the same units free as before.
pub kfree-kmalloc :
    {h : Heap} (size a : ℕ) (h' : Heap)
    → IsValid h
    → size + 135 < 2 ^ 31
    → kmalloc h size ≡ some (a, h')
    → (v : ℕ) → is_free (kfree h' a) v ≡ is_free h v
kfree-kmalloc {h} size a h' valid small e v = elim (kmalloc_first_fit valid size small) [
  | inl (unit, b, n, q, block) ↦
      subst (λ (p : ℕ × Heap). is_free (kfree p.1 p.0) v ≡ is_free h v)
        (some-injective (b, n) (a, h') (sym q ∙ e)) (kfree-Block size unit b n valid block v)
  | inr (q, _) ↦ cc
]

-- A block of less than 2 GB - 135 bytes does not overlap memory in use: in a valid heap in which the `n`
-- units from `unit` on are used, 0 < `n`, the bytes of a block that kmalloc returns, with its header,
-- lie before or behind theirs. (The size that kmalloc adds to larger blocks can wrap round.)
pub kmalloc_disjoint :
    {h : Heap} (size a unit n : ℕ) (h' : Heap)
    → IsValid h
    → size + 135 < 2 ^ 31
    → ((v : ℕ) → unit ≤ v → v < unit + n → is_free h v ≡ false)
    → kmalloc h size ≡ some (a, h')
    → 0 < n
    → (h.heap_begin + (unit + n) * heap_seg_size + sizeof_heap_entry ≤ a)
      ⊎ (a + size ≤ h.heap_begin + unit * heap_seg_size)
kmalloc_disjoint {h} size a unit n h' valid small used e pos =
    elim (kmalloc_first_fit valid size small) [
      | inl (u, b, m, q, block) ↦
          let same : b ≡ a =
            ap (λ (p : ℕ × Heap). p.0) (some-injective (b, m) (a, h') (sym q ∙ e)) in
          let apart : (unit + n ≤ u) ⊎ (u + units_for size ≤ unit) =
            elim (Bool-cases (ltb u (unit + n) && ltb unit (u + units_for size))) [
              | inr clear ↦ ground (arith, clear)
              | inl overlap ↦
                  let v = if ltb u unit then unit else u in
                  let lo1 : unit ≤ v = ground (arith, overlap) in
                  let hi1 : v < unit + n = ground (arith, overlap, pos) in
                  let lo2 : u ≤ v = ground (arith, overlap) in
                  let hi2 : v < u + units_for size = ground (arith, overlap) in
                  cc (used v lo1 hi1, block.was_free v lo2 hi2)
            ] in
          elim apart [
            | inl before ↦ inl (omega (arith, block.address, same))
            | inr behind ↦ inr (omega (arith, block.address, same))
          ]
      | inr (q, _) ↦ cc
    ]

-- The map takes the first bytes of the heap, and the units are counted as if it did not: the units
-- of a heap of 1 KB or more pass its end.
pub heap_init_overcommits :
    (bytes : ℕ → ℕ) (headers : ℕ → HeapEntry) (base size : ℕ)
    → 1024 ≤ size
    → size % heap_seg_size ≡ 0
    → base + size < word
    → base + size
      < (heap_init bytes headers base size).heap_begin
        + (heap_init bytes headers base size).allocation_map_entries * heap_seg_size
unfolding heap_init
heap_init_overcommits bytes headers base size large whole fits = omega arith
