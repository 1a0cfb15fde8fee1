-- ===== src/Files/Fat16/Tests.antt =====
-- kernel/fs/fat16.cpp: runs of Read, and its theorems at a concrete file.
use nekosys.Base.{ℕ, ◌+◌, ◌*◌, ◌≡◌, refl, Option, none, some, ◌==◌, if◌then◌else◌, arith}
use nekosys.Files.Fat16.{
  Fat16, Device, load_cluster, read_full, read_last, cluster_loop, read_file, fat_end,
}
use nekosys.Files.Fat16.Chain.{Chain, Holds, last, more, read_file_reads}

-- Clusters of one block; cluster 2 is followed by cluster 4, the last.
abbrev volume : Fat16
volume = record {
  cluster_start = 100;
  bytes_per_block = 512;
  blocks_per_alloc = 1;
  fat_cache = λ c. if c == 2 then 4 else fat_end;
}

-- Each byte tells its block and its place there.
abbrev device : Device
device block i = block * 1000 + i

abbrev blank : ℕ → ℕ
blank i = 7

abbrev byte_of : Option (ℕ → ℕ) → ℕ → ℕ
byte_of none i = 0
byte_of (some dst) i = dst i

read_runs :
    (byte_of (read_file volume device 3 2 700 0 600 blank blank) 511 ≡ 100511)
    × (byte_of (read_file volume device 3 2 700 0 600 blank blank) 512 ≡ 102000)
    × (byte_of (read_file volume device 3 2 700 0 600 blank blank) 600 ≡ 7)
    × (byte_of (read_file volume device 3 2 700 0 701 blank blank) 0 ≡ 7)
    × (byte_of (read_file volume device 3 2 700 10 20 blank blank) 9 ≡ 100019)
    × (byte_of (read_file volume device 3 2 700 10 20 blank blank) 10 ≡ 7)
unfolding read_file cluster_loop read_full read_last load_cluster
read_runs = (refl, refl, refl, refl, refl, refl)

chain : Chain volume 2 2 2 600
chain =
    more 1 2 600 (omega arith) (omega arith) (omega arith) (last 0 4 88 (omega arith) (omega arith))

read_file_reads_example :
    (dst' : ℕ → ℕ) × (read_file volume device 3 2 700 0 600 blank blank ≡ some dst')
    × Holds volume device 2 2 0 600 blank dst'
read_file_reads_example =
    read_file_reads volume device refl (omega arith) 2 2 700 600 3 blank blank chain (omega arith)
      (omega arith) (omega arith) (omega arith) (omega arith)
