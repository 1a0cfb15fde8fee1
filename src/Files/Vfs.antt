-- ===== src/Files/Vfs.antt =====
-- kernel/fs/vfs.cpp: mount points and file handles.
pub mod Mounts
pub mod Handles
mod Tests
use nekosys.Base.{
  ℕ, ◌+◌, Bool, true, false, Option, none, some, List, [], ◌∷◌, ◌++◌, ◌==◌, if◌then◌else◌, length,
  drop,
}
use nekosys.Base.Words.{add32}
use nekosys.Neko.Text.{Text, equals, equals_c, append, starts_with}

pub data DirEntryType : Type 0 where
  file folder hidden volume_label system invalid : DirEntryType

pub record DirEntry : Type 0 where
  pub name : Text
  pub entry_type : DirEntryType
  pub size : ℕ
  pub location : ℕ

abbrev pub is_invalid : DirEntryType → Bool
is_invalid invalid = true
is_invalid _ = false

-- The class that the mounted file systems implement; Read gives what it leaves in the buffer.
pub record FileSystem : Type 0 where
  pub exists_path : Text → Bool
  pub file_meta : Text → DirEntry
  pub read_entry : DirEntry → ℕ → ℕ → List ℕ → List ℕ
  pub entries : Text → List DirEntry

pub record MountPoint : Type 0 where
  pub path : Text
  pub fs : FileSystem

pub record FileHandle : Type 0 where
  pub id : ℕ
  pub fs : FileSystem
  pub entry : DirEntry
  pub offset : ℕ

pub record VirtualFileSystem : Type 0 where
  pub mounts : List MountPoint
  pub file_handles : List FileHandle
  pub id_counter : ℕ

abbrev pub root : Text
root = b'/' ∷ []

-- DirEntry::Invalid
abbrev pub invalid_entry : DirEntry
invalid_entry = record { name = []; entry_type = invalid; size = 0; location = 0 }

abbrev pub root_entry : DirEntry
root_entry = record { name = root; entry_type = folder; size = 0; location = 0 }

unfoldable pub mount : VirtualFileSystem → Text → FileSystem → VirtualFileSystem
mount v path fs = record v { mounts = v.mounts ++ (record { path = path; fs = fs } ∷ []) }

unfoldable pub unmount_loop : List MountPoint → Text → List MountPoint
unmount_loop [] path = []
unmount_loop (m ∷ ms) path =
    let rest = unmount_loop ms path in if equals m.path path then ms else m ∷ rest

unfoldable pub unmount : VirtualFileSystem → Text → VirtualFileSystem
unfolding unmount_loop
unmount v path = record v { mounts = unmount_loop v.mounts path }

unfoldable pub mount_loop : List MountPoint → Text → Option MountPoint
mount_loop [] path = none
mount_loop (m ∷ ms) path =
    let rest = mount_loop ms path in if starts_with path m.path then some m else rest

unfoldable pub find_mount_point : VirtualFileSystem → Text → Option MountPoint
unfolding mount_loop
find_mount_point v path = mount_loop v.mounts path

-- The callers have the mount point from FindMountPoint, so that its path is no longer than the path.
unfoldable pub get_relative_path : MountPoint → Text → Text
get_relative_path m path = append root (drop (length m.path) path)

-- `none` is the access through the null pointer where no mount point is found.
unfoldable pub exists : VirtualFileSystem → Text → Option Bool
unfolding find_mount_point
exists v path = elim (find_mount_point v path) [
  | none ↦ none
  | some m ↦ some (m.fs.exists_path path)
]

unfoldable pub get_file_meta : VirtualFileSystem → Text → DirEntry
unfolding find_mount_point get_relative_path
get_file_meta v path = if equals_c path root then root_entry else elim (find_mount_point v path) [
  | none ↦ invalid_entry
  | some m ↦ m.fs.file_meta (get_relative_path m path)
]

unfoldable pub open_entry : VirtualFileSystem → FileSystem → DirEntry → ℕ × VirtualFileSystem
open_entry v fs entry =
    let id = add32 v.id_counter 1 in
    if is_invalid entry.entry_type then (0, v) else (
      id,
      record v {
        file_handles =
            v.file_handles ++ (record { id = id; fs = fs; entry = entry; offset = 0 } ∷ []);
        id_counter = id;
      },
    )

unfoldable pub open_file : VirtualFileSystem → Text → ℕ × VirtualFileSystem
unfolding find_mount_point get_relative_path open_entry
open_file v path = elim (find_mount_point v path) [
  | none ↦ (0, v)
  | some m ↦ open_entry v m.fs (m.fs.file_meta (get_relative_path m path))
]

unfoldable pub read_loop : List FileHandle → ℕ → ℕ → ℕ → List ℕ → List ℕ
read_loop [] handle offset size dst = dst
read_loop (h ∷ hs) handle offset size dst =
    let rest = read_loop hs handle offset size dst in
    if h.id == handle then h.fs.read_entry h.entry offset size dst else rest

-- The buffer after the call, for the buffer before it.
unfoldable pub read : VirtualFileSystem → ℕ → ℕ → ℕ → List ℕ → List ℕ
unfolding read_loop
read v handle offset size dst =
    if handle == 0 then dst else read_loop v.file_handles handle offset size dst

unfoldable pub close_loop : List FileHandle → ℕ → List FileHandle
close_loop [] handle = []
close_loop (h ∷ hs) handle =
    let rest = close_loop hs handle in if h.id == handle then hs else h ∷ rest

unfoldable pub close : VirtualFileSystem → ℕ → VirtualFileSystem
unfolding close_loop
close v handle =
    if handle == 0 then v else record v { file_handles = close_loop v.file_handles handle }

unfoldable pub list_directory : VirtualFileSystem → Text → List DirEntry
unfolding find_mount_point get_relative_path
list_directory v path = elim (find_mount_point v path) [
  | none ↦ []
  | some m ↦ m.fs.entries (get_relative_path m path)
]
