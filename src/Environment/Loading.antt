-- ===== src/Environment/Loading.antt =====
-- kernel/environment.cpp: Load over the virtual file system.
use nekosys.Base.{ℕ, ◌+◌, ◌<◌, ◌≡◌, refl, ap, false, some, List, ◌++◌}
use nekosys.Base.Words.{word}
use nekosys.Neko.Text.{c_string, equals_c, same_loop}
use nekosys.Neko.IniFile.{ini_file, get_section}
use nekosys.Files.Vfs.{
  VirtualFileSystem, MountPoint, is_invalid, root, find_mount_point, get_relative_path,
  get_file_meta, open_file, close,
}
use nekosys.Files.Vfs.Handles.{IsValid, open_file_opens}
use nekosys.Environment.{config_file_path, section_name, load_environment}

config_file_path-root : equals_c config_file_path root ≡ false
unfolding equals_c same_loop c_string
config_file_path-root = refl

-- What Load gives is what the parser makes of the file, read from its start, and of what lies behind
-- the array, up to the next NUL; and no file handle stays open.
load_environment_reads :
    (v : VirtualFileSystem) (m : MountPoint) (stale behind : List ℕ)
    → IsValid v
    → v.id_counter + 1 < word
    → find_mount_point v config_file_path ≡ some m
    → is_invalid (m.fs.file_meta (get_relative_path m config_file_path)).entry_type ≡ false
    → (v' : VirtualFileSystem) × (load_environment v stale behind
        ≡ some (
          get_section
              (ini_file (
                c_string (
                  m.fs.read_entry
                    (m.fs.file_meta (get_relative_path m config_file_path))
                    0
                    (m.fs.file_meta (get_relative_path m config_file_path)).size
                    stale
                  ++ behind)))
              section_name,
          v',
        ))
      × (v'.file_handles ≡ v.file_handles)
unfolding load_environment get_file_meta
load_environment_reads v m stale behind valid room found real =
    let o = open_file_opens v config_file_path m valid room found real in
    let r = open_file v config_file_path in
    let meta = m.fs.file_meta (get_relative_path m config_file_path) in
    (
      close r.1 r.0,
      rw (config_file_path-root, found)
          (rw real (
            ap
              (λ z.
                some (get_section (ini_file (c_string (z ++ behind))) section_name, close r.1 r.0))
              (o.reads 0 meta.size stale))),
      o.closes,
    )
