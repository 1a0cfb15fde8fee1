-- ===== src/Files/Fat16.antt =====
-- kernel/fs/fat16.cpp: reading the clusters of a file.
pub mod Chain
pub mod Offset
mod Tests
use nekosys.Base.{
  ℕ, zero, suc, ◌+◌, ◌-◌, ◌*◌, ◌/◌, ◌%◌, ◌^◌, Bool, true, false, Option, none, some, ltb, leb, ◌==◌,
  ◌&&◌, if◌then◌else◌,
}
use nekosys.Base.Words.{word, add32, sub32}

abbrev pub fat_end : ℕ
fat_end = 0xffff

-- What Read uses of the class: the geometry, and the cached table as its 16-bit entries.
pub record Fat16 : Type 0 where
  pub cluster_start : ℕ
  pub bytes_per_block : ℕ
  pub blocks_per_alloc : ℕ
  pub fat_cache : ℕ → ℕ

-- A block device, as the bytes of its blocks of 512.
abbrev pub Device : Type 0
Device = ℕ → ℕ → ℕ

abbrev pub next_cluster : Fat16 → ℕ → ℕ
next_cluster f cluster = f.fat_cache (cluster % 2 ^ 16)

abbrev pub start_sector : Fat16 → ℕ → ℕ
start_sector f cluster = add32 f.cluster_start ((f.blocks_per_alloc * sub32 cluster 2) % word)

-- The buffer `current_cluster` after the call, for the buffer before it.
unfoldable pub load_cluster : Fat16 → Device → ℕ → (ℕ → ℕ) → ℕ → ℕ
load_cluster f device cluster current i =
    if ltb i (f.blocks_per_alloc * 512)
    then device (add32 (start_sector f cluster) (i / 512)) (i % 512)
    else current i

-- memcpy(dst + to, src + from, n)
abbrev pub copy : (ℕ → ℕ) → ℕ → (ℕ → ℕ) → ℕ → ℕ → ℕ → ℕ
copy dst to src from n i = if leb to i && ltb i (to + n) then src (from + (i - to)) else dst i

-- The variables of Read's loop, and the two buffers.
pub record ReadState : Type 0 where
  pub cluster : ℕ
  pub read_offset : ℕ
  pub remaining : ℕ
  pub current : ℕ → ℕ
  pub dst : ℕ → ℕ

abbrev pub cluster_size : Fat16 → ℕ
cluster_size f = f.blocks_per_alloc * f.bytes_per_block

-- The body of the loop behind the test of the cluster, for a cluster that is not the last.
unfoldable pub read_full : Fat16 → Device → ℕ → ReadState → ReadState
read_full f device size s =
    let loaded = load_cluster f device s.cluster s.current in
    record s {
      read_offset = 0;
      remaining = s.remaining - cluster_size f;
      current = loaded;
      dst =
          copy s.dst (size - s.remaining) loaded s.read_offset
            (sub32 (cluster_size f) s.read_offset);
    }

-- For the last one.
unfoldable pub read_last : Fat16 → Device → ℕ → ReadState → ℕ → ℕ
read_last f device size s =
    copy s.dst (size - s.remaining) (load_cluster f device s.cluster s.current) s.read_offset
      (sub32 s.remaining s.read_offset)

-- The loop, within a number of rounds; `none` is one that has not ended by then.
unfoldable pub cluster_loop : Fat16 → Device → ℕ → ℕ → ℕ → ReadState → Option (ℕ → ℕ)
unfolding read_full read_last
cluster_loop f device size first zero s = none
cluster_loop f device size first (suc rounds) s =
    let skip = ltb s.cluster first in
    let after = if skip then s else read_full f device size s in
    let next = next_cluster f s.cluster in
    let rest = cluster_loop f device size first rounds (record after { cluster = next }) in
    if (if skip then false else ltb s.remaining (cluster_size f))
    then some (read_last f device size s)
    else if next == fat_end
    then some after.dst
    else rest

-- `location` and `entry_size` are the entry's, and `dst`, not null, the buffer before the call.
unfoldable pub read_file : Fat16 → Device → ℕ → ℕ → ℕ → ℕ → ℕ → (ℕ → ℕ) → (ℕ → ℕ) → Option (ℕ → ℕ)
unfolding cluster_loop
read_file f device rounds location entry_size offset size current dst =
    let s : ReadState = record {
      cluster = location;
      read_offset = offset % cluster_size f;
      remaining = size;
      current = current;
      dst = dst;
    } in
    if size == 0
    then some dst
    else if ltb entry_size (add32 offset size)
    then some dst
    else cluster_loop f device size (add32 location (offset / cluster_size f)) rounds s
