-- ===== src/Files/Directory.antt =====
-- kernel/fs/fat16.cpp: directories.
pub mod Lookup
mod Tests
use nekosys.Base.{
  ℕ, zero, suc, ◌+◌, ◌*◌, Bool, true, false, Option, none, some, List, [], ◌∷◌, ◌==◌, if◌then◌else◌,
  get_or, drop,
}
use nekosys.Base.Bytes.{bit_clear}
use nekosys.Neko.Text.{Text, c_string, equals}
use nekosys.Neko.FilePath.{FilePath, parse, get_filename, get_directory_path}
use nekosys.Files.Vfs.{
  DirEntry, DirEntryType, file, folder, hidden, volume_label, system, invalid_entry, is_invalid,
}
use nekosys.Files.Fat16.{Fat16, Device, load_cluster}

-- A directory is the list of the bytes in memory from its start on: its own and, as the loops below
-- read 128 entries whatever its size is, those that lie behind its buffer. Only behind all that is
-- given a read is 0.
abbrev pub byte_at : List ℕ → ℕ → ℕ
byte_at d i = get_or d i 0

abbrev pub type_of : ℕ → DirEntryType
type_of attr =
    if bit_clear attr 1
    then (if bit_clear attr 3
        then (if bit_clear attr 4 then (if bit_clear attr 2 then file else system) else folder)
        else volume_label)
    else hidden

-- `none` is the end of the directory.
unfoldable pub parse_dir_entry : List ℕ → Option DirEntry
parse_dir_entry d =
    if byte_at d 0 == 0
    then none
    else some (record {
      name = c_string d;
      entry_type = type_of (byte_at d 0x0b);
      size =
          byte_at d 0x1c + 256 * (byte_at d 0x1d + 256 * (byte_at d 0x1e + 256 * byte_at d 0x1f));
      location = byte_at d 0x1a + 256 * byte_at d 0x1b;
    })

-- The loop of ListDirectory over `n` entries.
unfoldable pub list_loop : ℕ → List ℕ → List DirEntry
list_loop zero d = []
list_loop (suc n) d =
    let rest = list_loop n (drop 32 d) in elim (parse_dir_entry d) [ none ↦ [] | some e ↦ e ∷ rest ]

-- How the search for a name ends: at the end of the directory, at the entry, or after all entries.
pub data Search : Type 0 where
  ended : Search
  exhausted : Search
  entry : DirEntry → Search

unfoldable pub search_loop : ℕ → List ℕ → Text → Search
search_loop zero d name = exhausted
search_loop (suc n) d name =
    let rest = search_loop n (drop 32 d) name in
    elim (parse_dir_entry d) [
      | none ↦ ended
      | some e ↦ if equals e.name name then entry e else rest
    ]

-- The bytes of the buffer `current_cluster` after loading a cluster, and those behind the buffer.
unfoldable pub cluster_bytes : (ℕ → ℕ) → List ℕ → ℕ → ℕ → List ℕ
cluster_bytes current behind zero i = behind
cluster_bytes current behind (suc n) i = current i ∷ cluster_bytes current behind n (i + 1)

-- The loop of LoadDirectory over the parts left, with the directory and the cluster buffer, and what
-- lies `behind` that buffer; `none`
-- is the null pointer. A search that is exhausted goes on with what the buffer holds.
unfoldable pub descend :
    Fat16 → Device → List ℕ → List Text → List ℕ → (ℕ → ℕ) → Option (List ℕ × (ℕ → ℕ))
unfolding search_loop cluster_bytes
descend f device behind [] base current = some (base, current)
descend f device behind (part ∷ parts) base current =
    let n = f.blocks_per_alloc * 512 in
    let same = descend f device behind parts (cluster_bytes current behind n 0) current in
    elim (search_loop 128 base part) [
      | ended ↦ none
      | exhausted ↦ same
      | entry e ↦
          let loaded = load_cluster f device e.location current in
          descend f device behind parts (cluster_bytes loaded behind n 0) loaded
    ]

unfoldable pub load_directory :
    Fat16 → Device → List ℕ → List ℕ → FilePath → (ℕ → ℕ) → Option (List ℕ × (ℕ → ℕ))
unfolding descend
load_directory f device root_directory behind path current =
    descend f device behind path.parts root_directory current

-- `none` is a read through the null pointer that LoadDirectory gave.
unfoldable pub list_directory :
    Fat16 → Device → List ℕ → List ℕ → FilePath → (ℕ → ℕ) → Option (List DirEntry)
unfolding load_directory list_loop
list_directory f device root_directory behind path current =
    elim (load_directory f device root_directory behind path current) [
      | none ↦ none
      | some (d, _) ↦ some (list_loop 128 d)
    ]

abbrev pub meta_of : Search → DirEntry
meta_of ended = invalid_entry
meta_of exhausted = invalid_entry
meta_of (entry e) = e

-- `none` also stands for a path without parts, where the path's last part is read out of bounds.
unfoldable pub get_file_meta : Fat16 → Device → List ℕ → List ℕ → Text → (ℕ → ℕ) → Option DirEntry
unfolding load_directory search_loop
get_file_meta f device root_directory behind path current = elim (get_directory_path (parse path)) [
  | none ↦ none
  | some dir ↦ elim (get_filename (parse path)) [
    | none ↦ none
    | some name ↦ elim (load_directory f device root_directory behind dir current) [
      | none ↦ none
      | some (d, _) ↦ some (meta_of (search_loop 128 d name))
    ]
  ]
]

unfoldable pub exists : Fat16 → Device → List ℕ → List ℕ → Text → (ℕ → ℕ) → Option Bool
unfolding get_file_meta
exists f device root_directory behind path current =
    elim (get_file_meta f device root_directory behind path current) [
      | none ↦ none
      | some e ↦ some (if is_invalid e.entry_type then false else true)
    ]
