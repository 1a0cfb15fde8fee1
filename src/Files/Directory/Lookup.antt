-- ===== src/Files/Directory/Lookup.antt =====
-- kernel/fs/fat16.cpp: looking up a name against listing the directory.
use nekosys.Base.{
  ℕ, zero, suc, ◌≡◌, refl, ap, ◌∙◌, some, List, [], ◌∷◌, if◌then◌else◌, Bool-cases, Option-cases,
  inl, inr, drop,
}
use nekosys.Neko.Text.{Text, equals}
use nekosys.Neko.FilePath.{FilePath, parse, get_filename, get_directory_path}
use nekosys.Files.Vfs.{DirEntry, invalid_entry}
use nekosys.Files.Fat16.{Fat16, Device}
use nekosys.Files.Directory.{
  parse_dir_entry, list_loop, search_loop, meta_of, load_directory, list_directory, get_file_meta,
}

-- The first entry of a name, or the invalid one.
abbrev pub first_named : List DirEntry → Text → DirEntry
first_named [] name = invalid_entry
first_named (e ∷ es) name = if equals e.name name then e else first_named es name

search_loop-first :
    (n : ℕ) (d : List ℕ) (name : Text)
    → meta_of (search_loop n d name) ≡ first_named (list_loop n d) name
unfolding search_loop list_loop
search_loop-first zero d name = refl
search_loop-first (suc n) d name = elim (Option-cases (parse_dir_entry d)) [
  | inl nothing ↦ rw (nothing, meta_of, first_named) refl
  | inr (e, found) ↦ elim (Bool-cases (equals e.name name)) [
    | inl same ↦ rw (found, same, meta_of, first_named) refl
    | inr other ↦ rw (found, other, meta_of, first_named) (search_loop-first n (drop 32 d) name)
  ]
]

-- Looking up a path gives the first entry of the listing of its directory that has the path's last
-- part as its name, or the invalid entry if none has.
pub get_file_meta_lists :
    (f : Fat16) (device : Device) (root_directory behind : List ℕ) (path : Text) (current : ℕ → ℕ)
    (dir : FilePath) (name : Text) (es : List DirEntry)
    → get_directory_path (parse path) ≡ some dir
    → get_filename (parse path) ≡ some name
    → list_directory f device root_directory behind dir current ≡ some es
    → get_file_meta f device root_directory behind path current ≡ some (first_named es name)
unfolding get_file_meta list_directory
get_file_meta_lists f device root_directory behind path current dir name es ed en el =
    elim (Option-cases (load_directory f device root_directory behind dir current)) [
      | inl null ↦ cc (rw (null, list_directory) at el)
      | inr ((d, after), loaded) ↦
          let same : list_loop 128 d ≡ es = cc (rw (loaded, list_directory) at el) in
          rw (ed, en, loaded, get_file_meta)
            (ap some (search_loop-first 128 d name) ∙ ap (λ z. some (first_named z name)) same)
    ]
