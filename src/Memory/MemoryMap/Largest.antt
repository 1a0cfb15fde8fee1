-- ===== src/Memory/MemoryMap/Largest.antt =====
-- kernel/memory/memorymap.cpp: GetLargestChunk.
use nekosys.Base.{
  ℕ, zero, suc, ◌+◌, ◌≤◌, ◌<◌, ◌≡◌, ◌⊎◌, inl, inr, refl, sym, ap, subst, ◌∙◌, ◌==◌, if◌then◌else◌,
  arith, Bool-cases,
}
use nekosys.Memory.MemoryMap.{MemoryMapEntry, MemoryMap, is_larger, largest_loop, get_largest_chunk}

-- An entry of the map, between two places, that is usable.
abbrev Usable : (ℕ → MemoryMapEntry) → ℕ → ℕ → MemoryMapEntry → Type 0
Usable entries from to e = (i : ℕ) × (from ≤ i) × (i < to) × (entries i ≡ e) × (e.type ≡ 1)

-- What the loop finds from the entry `i` on, when it had `largest` before.
record Found (entries : ℕ → MemoryMapEntry) (largest : MemoryMapEntry) (i to : ℕ)
    (e : MemoryMapEntry) : Type 0 where
  at_least : largest.length_low ≤ e.length_low
  upper : (j : ℕ) → i ≤ j → j < to → (entries j).type ≡ 1 → (entries j).length_low ≤ e.length_low
  origin : (e ≡ largest) ⊎ Usable entries i to e

record Picked (largest entry picked : MemoryMapEntry) : Type 0 where
  kept : largest.length_low ≤ picked.length_low
  taken : entry.type ≡ 1 → entry.length_low ≤ picked.length_low
  which : (picked ≡ largest) ⊎ ((picked ≡ entry) × (entry.type ≡ 1))

pick-Picked :
    (largest entry : MemoryMapEntry)
    → Picked largest entry (if is_larger entry largest then entry else largest)
unfolding is_larger
pick-Picked largest entry = elim (Bool-cases (is_larger entry largest)) [
  | inl more ↦ rw more (record {
    kept = ground (arith, more);
    taken = λ u. omega arith;
    which = inr (refl, ground (arith, more));
  })
  | inr less ↦
      rw less
        (record { kept = omega arith; taken = λ u. ground (arith, less, u); which = inl refl })
]

largest_loop-Found :
    (entries : ℕ → MemoryMapEntry) (largest : MemoryMapEntry) (n i : ℕ)
    → Found entries largest i (i + n) (largest_loop entries largest n i)
unfolding largest_loop
largest_loop-Found entries largest zero i = record {
  at_least = omega arith;
  upper = λ j lo hi u. absurd (omega (arith, lo, hi));
  origin = inl refl;
}
largest_loop-Found entries largest (suc n) i =
    let picked = if is_larger (entries i) largest then entries i else largest in
    let p = pick-Picked largest (entries i) in
    let f = largest_loop-Found entries picked n (i + 1) in
    record {
      at_least = omega (arith, p.kept, f.at_least);
      upper = λ j lo hi u. elim (Bool-cases (j == i)) [
        | inl here ↦
            let same : j ≡ i = ground (arith, here) in
            let le = p.taken (subst (λ z. (entries z).type ≡ 1) same u) in
            let at : (entries j).length_low ≡ (entries i).length_low =
              ap (λ z. (entries z).length_low) same in
            omega (arith, le, at, f.at_least)
        | inr later ↦
            let above : i + 1 ≤ j = ground (arith, lo, later) in
            f.upper j above (omega (arith, hi)) u
      ];
      origin = elim f.origin [
        | inr (j, lo, hi, e, u) ↦ inr (j, omega (arith, lo), omega (arith, hi), e, u)
        | inl e ↦ elim p.which [
          | inl same ↦ inl (e ∙ same)
          | inr (same, u) ↦ inr (
            i,
            omega arith,
            omega arith,
            sym (e ∙ same),
            ap (λ (z : MemoryMapEntry). z.type) (e ∙ same) ∙ u,
          )
        ]
      ];
    }

-- Of a map that is not empty GetLargestChunk gives an entry of the map, which is the first one, usable
-- or not, or else a usable one; so it is usable where the first one is. The low word of its length is
-- at least that of every usable entry of the map. (The high words are not compared.)
pub get_largest_chunk_bounds :
    (m : MemoryMap)
    → 0 < m.length
    → ((j : ℕ)
        → j < m.length
        → (m.entries j).type ≡ 1
        → (m.entries j).length_low ≤ (get_largest_chunk m).length_low)
      × ((i : ℕ) × (i < m.length)
          × (m.entries i ≡ get_largest_chunk m)
          × ((i ≡ 0) ⊎ ((m.entries i).type ≡ 1)))
      × ((m.entries 0).type ≡ 1 → (get_largest_chunk m).type ≡ 1)
unfolding get_largest_chunk
get_largest_chunk_bounds m some_entry =
    let f = largest_loop-Found m.entries (m.entries 0) m.length 0 in
    (
      λ j hi u. f.upper j (omega arith) (omega (arith, hi)) u,
      elim f.origin [
        | inl e ↦ (0, some_entry, sym e, inl refl)
        | inr (i, _, hi, e, u) ↦
            (i, omega (arith, hi), e, inr (ap (λ (z : MemoryMapEntry). z.type) e ∙ u))
      ],
      λ first. elim f.origin [
        | inl e ↦ ap (λ (z : MemoryMapEntry). z.type) e ∙ first
        | inr (i, _, _, e, u) ↦ u
      ],
    )
