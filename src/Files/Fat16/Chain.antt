-- ===== src/Files/Fat16/Chain.antt =====
-- kernel/fs/fat16.cpp: reading from the start of a file gives the bytes along its cluster chain.
use nekosys.Base.{
  ℕ, zero, suc, ◌+◌, ◌-◌, ◌*◌, ◌/◌, ◌%◌, ◌≤◌, ◌<◌, ◌≡◌, ◌≢◌, ◌⊎◌, refl, sym, ap, ◌∙◌, subst, true,
  false, some, ltb, leb, ◌==◌, if◌then◌else◌, arith, Bool-cases, inl, inr,
}
use native.Mathlib.Nat.{zero-mod, div-le_self}
use nekosys.Base.Words.{word, add32, sub32}
use nekosys.Files.Fat16.{
  Fat16, Device, ReadState, fat_end, next_cluster, start_sector, load_cluster, copy, cluster_size,
  read_full, read_last, cluster_loop, read_file,
}

-- The `i`-th byte of the file whose chain starts at a cluster, if `n` clusters reach it.
abbrev pub chain_byte : Fat16 → Device → ℕ → ℕ → ℕ → ℕ
chain_byte f device zero c i = 0
chain_byte f device (suc n) c i =
    if ltb i (cluster_size f)
    then device (add32 (start_sector f c) (i / 512)) (i % 512)
    else chain_byte f device n (next_cluster f c) (i - cluster_size f)

-- A chain of at most `n` clusters, none before `first`, that holds `r` bytes from a cluster on.
pub data Chain (f : Fat16) (first : ℕ) : ℕ → ℕ → ℕ → Type 0 where
  last : (n c r : ℕ) → first ≤ c → r < cluster_size f → Chain f first (suc n) c r
  exact :
      (n c r : ℕ)
      → first ≤ c
      → r ≡ cluster_size f
      → next_cluster f c ≡ fat_end
      → Chain f first (suc n) c r
  more :
      (n c r : ℕ)
      → first ≤ c
      → cluster_size f ≤ r
      → next_cluster f c ≢ fat_end
      → Chain f first n (next_cluster f c) (r - cluster_size f)
      → Chain f first (suc n) c r

-- The buffer holds the chain's `r` bytes from `w` on, and is as before elsewhere.
pub record Holds (f : Fat16) (device : Device) (n c w r : ℕ) (before after : ℕ → ℕ) : Type 0 where
  pub inside : (i : ℕ) → i < r → after (w + i) ≡ chain_byte f device n c i
  pub below : (i : ℕ) → i < w → after i ≡ before i
  pub above : (i : ℕ) → w + r ≤ i → after i ≡ before i

copy-inside : (dst src : ℕ → ℕ) (to n i : ℕ) → i < n → copy dst to src 0 n (to + i) ≡ src i
copy-inside dst src to n i h =
    let lo : leb to (to + i) ≡ true = ground arith in
    let hi : ltb (to + i) (to + n) ≡ true = ground (arith, h) in
    let at : 0 + ((to + i) - to) ≡ i = omega arith in rw (lo, hi) (ap src at)

copy-outside :
    (dst src : ℕ → ℕ) (to n i : ℕ) → (i < to) ⊎ (to + n ≤ i) → copy dst to src 0 n i ≡ dst i
copy-outside dst src to n i (inl h) = let lo : leb to i ≡ false = ground (arith, h) in rw lo refl
copy-outside dst src to n i (inr h) =
    let hi : ltb i (to + n) ≡ false = ground (arith, h) in
    elim (Bool-cases (leb to i)) [ inl lo ↦ rw (lo, hi) refl | inr lo ↦ rw lo refl ]

abbrev at_start : ℕ → ℕ → (ℕ → ℕ) → (ℕ → ℕ) → ReadState
at_start c r current dst = record {
  cluster = c;
  read_offset = 0;
  remaining = r;
  current = current;
  dst = dst;
}

module _ (f : Fat16) (device : Device) (geometry : f.bytes_per_block ≡ 512)
    (small : cluster_size f < word) where
  load_cluster-inside :
      (c : ℕ) (current : ℕ → ℕ) (i : ℕ)
      → i < cluster_size f
      → load_cluster f device c current i ≡ device (add32 (start_sector f c) (i / 512)) (i % 512)
  unfolding load_cluster
  load_cluster-inside c current i h =
      let e : f.blocks_per_alloc * f.bytes_per_block ≡ f.blocks_per_alloc * 512 =
        ap (λ z. f.blocks_per_alloc * z) geometry in
      let fits : ltb i (f.blocks_per_alloc * 512) ≡ true = ground (arith, h, e) in rw fits refl

  chain_byte-near :
      (n c i : ℕ)
      → i < cluster_size f
      → chain_byte f device (suc n) c i ≡ device (add32 (start_sector f c) (i / 512)) (i % 512)
  chain_byte-near n c i h =
      let near : ltb i (cluster_size f) ≡ true = ground (arith, h) in rw near refl

  module _ (n c w : ℕ) (current dst : ℕ → ℕ) where
    -- A copy of the first `k` bytes of a cluster to `w`.
    copy-Holds :
        (k : ℕ)
        → k ≤ cluster_size f
        → Holds f device (suc n) c w k dst (copy dst w (load_cluster f device c current) 0 k)
    copy-Holds k le = record {
      inside = λ i h.
          copy-inside dst (load_cluster f device c current) w k i h
          ∙ load_cluster-inside c current i (omega (arith, h, le))
          ∙ sym (chain_byte-near n c i (omega (arith, h, le)));
      below = λ i h. copy-outside dst (load_cluster f device c current) w k i (inl h);
      above = λ i h. copy-outside dst (load_cluster f device c current) w k i (inr h);
    }

    read_last-Holds :
        (size r : ℕ)
        → size ≡ w + r
        → size < word
        → r < cluster_size f
        → Holds f device (suc n) c w r dst (read_last f device size (at_start c r current dst))
    unfolding read_last
    read_last-Holds size r e fits lt =
        let to : size - r ≡ w = omega (arith, e) in
        let all : sub32 r 0 ≡ r = omega (arith, e, fits) in
        rw (to, all) (copy-Holds r (omega (arith, lt)))

    read_full-Holds :
        (size r : ℕ)
        → size ≡ w + r
        → Holds f device
            (suc n)
            c
            w
            (cluster_size f)
            dst
            (read_full f device size (at_start c r current dst)).dst
    unfolding read_full
    read_full-Holds size r e =
        let to : size - r ≡ w = omega (arith, e) in
        let all : sub32 (cluster_size f) 0 ≡ cluster_size f = omega (arith, small) in
        rw (to, all) (copy-Holds (cluster_size f) (omega arith))

  -- The first cluster and what follows it.
  Holds-join :
      (n c w r : ℕ) (before mid after : ℕ → ℕ)
      → cluster_size f ≤ r
      → Holds f device (suc n) c w (cluster_size f) before mid
      → Holds f device n (next_cluster f c) (w + cluster_size f) (r - cluster_size f) mid after
      → Holds f device (suc n) c w r before after
  Holds-join n c w r before mid after le one rest = record {
    inside = λ i h. elim (Bool-cases (ltb i (cluster_size f))) [
      | inl near ↦
          let lt : i < cluster_size f = ground (arith, near) in
          rest.below (w + i) (omega (arith, lt)) ∙ one.inside i lt
      | inr far ↦
          let ge : cluster_size f ≤ i = ground (arith, far) in
          let at : w + i ≡ w + cluster_size f + (i - cluster_size f) = omega (arith, ge) in
          rw far (ap after at ∙ rest.inside (i - cluster_size f) (omega (arith, ge, h)))
    ];
    below = λ i h. rest.below i (omega (arith, h)) ∙ one.below i h;
    above = λ i h. rest.above i (omega (arith, h, le)) ∙ one.above i (omega (arith, h, le));
  }

  cluster_loop-Holds :
      (first n c r rounds w size : ℕ) (current dst : ℕ → ℕ)
      → Chain f first n c r
      → n ≤ rounds
      → size ≡ w + r
      → size < word
      → (dst' : ℕ → ℕ) × (cluster_loop f device size first rounds (at_start c r current dst)
          ≡ some dst')
        × Holds f device n c w r dst dst'
  unfolding cluster_loop
  cluster_loop-Holds first _ _ _ zero w size current dst (last m c r ge lt) le e fits =
      absurd (omega (arith, le))
  cluster_loop-Holds first _ _ _ zero w size current dst (exact m c r ge eq stop) le e fits =
      absurd (omega (arith, le))
  cluster_loop-Holds first _ _ _ zero w size current dst (more m c r ge full on rest) le e fits =
      absurd (omega (arith, le))
  cluster_loop-Holds first _ _ _ (suc rounds) w size current dst (last m c r ge lt) le e fits =
      let here : ltb c first ≡ false = ground (arith, ge) in
      let short : ltb r (cluster_size f) ≡ true = ground (arith, lt) in
      (_, rw (here, short) refl, read_last-Holds m c w current dst size r e fits lt)
  cluster_loop-Holds first _ _ _ (suc rounds) w size current dst (exact m c r ge full stop) le e
        fits =
      let here : ltb c first ≡ false = ground (arith, ge) in
      let whole : ltb r (cluster_size f) ≡ false = ground (arith, full) in
      let end : (next_cluster f c == fat_end) ≡ true = ground (arith, stop) in
      let mid = read_full f device size (at_start c r current dst) in
      let all = read_full-Holds m c w current dst size r e in
      (
        mid.dst,
        rw (here, whole, end) refl,
        subst (λ z. Holds f device (suc m) c w z dst mid.dst) (sym full) all,
      )
  cluster_loop-Holds first _ _ _ (suc rounds) w size current dst (more m c r ge full on rest) le e
        fits =
      let here : ltb c first ≡ false = ground (arith, ge) in
      let whole : ltb r (cluster_size f) ≡ false = ground (arith, full) in
      let go : (next_cluster f c == fat_end) ≡ false = ground (arith, on) in
      let mid = read_full f device size (at_start c r current dst) in
      let (dst', run, holds) =
        cluster_loop-Holds first m (next_cluster f c) (r - cluster_size f) rounds
          (w + cluster_size f) size mid.current mid.dst rest (omega (arith, le))
          (omega (arith, e, full)) fits in
      (
        dst',
        rw (here, whole, go) run,
        Holds-join m c w r dst mid.dst dst' full (read_full-Holds m c w current dst size r e) holds,
      )

  -- Reading from the start of a file, of a size that the entry admits, ends within as many rounds as
  -- the file's chain has clusters, and fills the buffer's first bytes with the bytes along the chain
  -- and changes no others; where blocks have 512 bytes and no cluster of the chain comes before the
  -- first.
  pub read_file_reads :
      (n location entry_size size rounds : ℕ) (current dst : ℕ → ℕ)
      → Chain f location n location size
      → n ≤ rounds
      → 0 < size
      → size ≤ entry_size
      → entry_size < word
      → location < word
      → (dst' : ℕ → ℕ) × (read_file f device rounds location entry_size 0 size current dst
          ≡ some dst')
        × Holds f device n location 0 size dst dst'
  unfolding read_file
  read_file_reads n location entry_size size rounds current dst chain le pos within top fits =
      let something : (size == 0) ≡ false = ground (arith, pos) in
      let admitted : ltb entry_size (add32 0 size) ≡ false = ground (arith, within, top) in
      let from : 0 % cluster_size f ≡ 0 = zero-mod (cluster_size f) in
      let first : add32 location (0 / cluster_size f) ≡ location =
        omega (arith, div-le_self 0 (cluster_size f), fits) in
      rw (something, admitted, from, first)
        (cluster_loop-Holds location n location size rounds 0 size current dst chain le
          (omega arith) (omega (arith, within, top)))
