-- ===== src/Files/Directory/Tests.antt =====
-- kernel/fs/fat16.cpp: a run of the lookups, and their theorem at a concrete directory.
use nekosys.Base.{ℕ, ◌≡◌, refl, true, false, none, some, List, [], ◌∷◌, ◌++◌, replicate}
use nekosys.Neko.Text.{c_string, same_loop, equals_c, equals, append_char}
use nekosys.Neko.FilePath.{FilePath, parse, get_filename, get_directory_path}
use nekosys.Files.Vfs.{DirEntry, folder}
use nekosys.Files.Fat16.{Fat16, Device, fat_end}
use nekosys.Files.Directory.{
  parse_dir_entry, list_loop, search_loop, descend, load_directory, list_directory, get_file_meta,
  exists,
}
use nekosys.Files.Directory.Lookup.{first_named, get_file_meta_lists}

abbrev volume : Fat16
volume = record {
  cluster_start = 100;
  bytes_per_block = 512;
  blocks_per_alloc = 1;
  fat_cache = λ c. fat_end;
}

abbrev device : Device
device block i = 0

abbrev blank : ℕ → ℕ
blank i = 0

-- One folder "b" in cluster 3.
abbrev root_directory : List ℕ
root_directory = b'b' ∷ replicate 10 0 ++ (0x10 ∷ replicate 14 0) ++ (3 ∷ replicate 5 0)

abbrev b_entry : DirEntry
b_entry = record { name = b'b' ∷ []; entry_type = folder; size = 0; location = 3 }

abbrev root_dir : FilePath
root_dir = record { is_absolute = false; parts = [] }

lists : list_directory volume device root_directory [] root_dir blank ≡ some (b_entry ∷ [])
unfolding list_directory load_directory descend list_loop parse_dir_entry c_string
lists = refl

get_file_meta_lists_example :
    get_file_meta volume device root_directory [] (b'/' ∷ b'b' ∷ []) blank
    ≡ some (first_named (b_entry ∷ []) (b'b' ∷ []))
unfolding parse append_char c_string get_directory_path get_filename
get_file_meta_lists_example =
    get_file_meta_lists volume device root_directory [] (b'/' ∷ b'b' ∷ []) blank root_dir
      (b'b' ∷ []) (b_entry ∷ []) refl refl lists

-- A directory that is missing is read through a null pointer.
exists_runs :
    (exists volume device root_directory [] (b'/' ∷ b'b' ∷ []) blank ≡ some true)
    × (exists volume device root_directory [] (b'/' ∷ b'a' ∷ []) blank ≡ some false)
    × (exists volume device root_directory [] (b'a' ∷ b'/' ∷ b'b' ∷ []) blank ≡ none)
unfolding exists get_file_meta load_directory descend search_loop parse_dir_entry c_string parse
    append_char get_directory_path get_filename equals equals_c same_loop
exists_runs = (refl, refl, refl)
