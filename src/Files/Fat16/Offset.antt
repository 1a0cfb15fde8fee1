-- ===== src/Files/Fat16/Offset.antt =====
-- kernel/fs/fat16.cpp: reading at an offset.
use nekosys.Base.{
  ℕ, suc, ◌+◌, ◌-◌, ◌/◌, ◌%◌, ◌≤◌, ◌<◌, ◌≡◌, refl, true, false, some, ltb, leb, ◌==◌, arith,
  Bool-cases, inl, inr,
}
use native.Mathlib.Nat.{mod-eq_of_lt, div-eq_of_lt}
use nekosys.Base.Words.{word, add32, sub32}
use nekosys.Files.Fat16.{
  Fat16, Device, load_cluster, copy, cluster_size, read_last, cluster_loop, read_file,
}

-- Reading less than a cluster at an offset inside the first one, an offset that is no larger than the
-- size, leaves the buffer's last bytes, as many as the offset, as they were.
pub read_file_drops :
    (f : Fat16) (device : Device) (location entry_size offset size rounds : ℕ) (current dst : ℕ → ℕ)
    → offset ≤ size
    → 0 < size
    → size < cluster_size f
    → offset + size ≤ entry_size
    → entry_size < word
    → location < word
    → (dst' : ℕ → ℕ) × (read_file f device (suc rounds) location entry_size offset size current dst
        ≡ some dst')
      × ((i : ℕ) → size - offset ≤ i → dst' i ≡ dst i)
unfolding read_file cluster_loop read_last
read_file_drops f device location entry_size offset size rounds current dst early pos short within
      top fits =
    let something : (size == 0) ≡ false = ground (arith, pos) in
    let admitted : ltb entry_size (add32 offset size) ≡ false = ground (arith, within, top) in
    let inside : offset < cluster_size f = omega (arith, early, short) in
    let none_skipped : offset / cluster_size f ≡ 0 = div-eq_of_lt inside in
    let from : offset % cluster_size f ≡ offset = mod-eq_of_lt inside in
    let first : add32 location (offset / cluster_size f) ≡ location =
      omega (arith, none_skipped, fits) in
    let here : ltb location location ≡ false = ground arith in
    let part : ltb size (cluster_size f) ≡ true = ground (arith, short) in
    let to : size - size ≡ 0 = omega arith in
    let most : sub32 size offset ≡ size - offset = omega (arith, early, within, top) in
    let src = load_cluster f device location current in
    (
      copy dst 0 src offset (size - offset),
      rw (something, admitted, from, first, here, part, to, most) refl,
      λ i h.
          let hi : ltb i (0 + (size - offset)) ≡ false = ground (arith, h) in
          elim (Bool-cases (leb 0 i)) [ inl lo ↦ rw (lo, hi) refl | inr lo ↦ rw lo refl ],
    )
