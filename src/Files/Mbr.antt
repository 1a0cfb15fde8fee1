-- ===== src/Files/Mbr.antt =====
-- kernel/fs/mbr.cpp: the partition table.
use nekosys.Base.{ℕ, zero, suc, ◌+◌, ◌*◌, ◌≡◌, refl, Bool, true, List, [], ◌∷◌, ◌==◌, if◌then◌else◌}

pub record Partition : Type 0 where
  pub bootable : Bool
  pub partition_type : ℕ
  pub start_sector : ℕ
  pub num_sectors : ℕ

abbrev dword : (ℕ → ℕ) → ℕ → ℕ
dword mbr i = mbr i + 256 * (mbr (i + 1) + 256 * (mbr (i + 2) + 256 * mbr (i + 3)))

-- The loop of Parse over the `n` entries from `i` on.
partition_loop : (ℕ → ℕ) → ℕ → ℕ → List Partition
partition_loop mbr zero i = []
partition_loop mbr (suc n) i =
    let rest = partition_loop mbr n (i + 16) in
    let p : Partition = record {
      bootable = mbr i == 0x80;
      partition_type = mbr (i + 4);
      start_sector = dword mbr (i + 8);
      num_sectors = dword mbr (i + 12);
    } in
    if p.num_sectors == 0 then rest else p ∷ rest

parse_partitions : (ℕ → ℕ) → List Partition
unfolding partition_loop
parse_partitions mbr = partition_loop mbr 4 0x1be

one_partition :
    parse_partitions (λ i. if i == 0x1be + 16 then 0x80 else if i == 0x1be + 28 then 9 else 0)
    ≡ record { bootable = true; partition_type = 0; start_sector = 0; num_sectors = 9 } ∷ []
unfolding parse_partitions partition_loop
one_partition = refl
