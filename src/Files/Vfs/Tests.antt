-- ===== src/Files/Vfs/Tests.antt =====
-- kernel/fs/vfs.cpp: runs of the virtual file system, and its theorems at concrete mounts.
use nekosys.Base.{◌≡◌, refl, true, false, some, [], ◌∷◌, if◌then◌else◌, arith, length}
use nekosys.Neko.Text.{Text, c_string, same_loop, equals_c, equals, append, starts_with}
use nekosys.Files.Vfs.{
  DirEntry, FileSystem, MountPoint, VirtualFileSystem, file, root, root_entry, invalid_entry, mount,
  unmount, unmount_loop, mount_loop, find_mount_point, get_relative_path, exists, get_file_meta,
  open_entry, open_file, read_loop, read, close_loop, close, list_directory,
}
use nekosys.Files.Vfs.Handles.{Opened, open_file_opens}

-- One file "/a" with the bytes 1, 2.
abbrev slash_a : Text
slash_a = b'/' ∷ b'a' ∷ []

abbrev a_entry : DirEntry
a_entry = record { name = b'a' ∷ []; entry_type = file; size = 2; location = 5 }

abbrev disk : FileSystem
disk = record {
  exists_path = λ p. equals p slash_a;
  file_meta = λ p. if equals p slash_a then a_entry else invalid_entry;
  read_entry = λ e offset size dst. 1 ∷ 2 ∷ [];
  entries = λ p. a_entry ∷ [];
}

abbrev floppy : FileSystem
floppy = record disk { exists_path = λ p. true }

abbrev slash_f : Text
slash_f = b'/' ∷ b'f' ∷ []

abbrev sample : VirtualFileSystem
sample = record {
  mounts = record { path = root; fs = disk } ∷ [];
  file_handles = [];
  id_counter = 0;
}

abbrev both : VirtualFileSystem
both = mount sample slash_f floppy

vfs_runs :
    ((open_file sample slash_a).0 ≡ 1)
    × (read (open_file sample slash_a).1 1 0 2 [] ≡ 1 ∷ 2 ∷ [])
    × ((close (open_file sample slash_a).1 1).file_handles ≡ [])
    × ((open_file sample slash_f).0 ≡ 0)
    × (exists both slash_f ≡ some false)
    × (length both.mounts ≡ 2)
    × (length (unmount both root).mounts ≡ 1)
    × (length (list_directory sample root) ≡ 1)
    × (get_file_meta sample root ≡ root_entry)
unfolding mount unmount unmount_loop find_mount_point mount_loop get_relative_path exists
    get_file_meta open_entry open_file read_loop read close_loop close list_directory starts_with
    same_loop equals equals_c append c_string
vfs_runs = (refl, refl, refl, refl, refl, refl, refl, refl, refl)

abbrev root_mount : MountPoint
root_mount = record { path = root; fs = disk }

abbrev floppy_mount : MountPoint
floppy_mount = record { path = slash_f; fs = floppy }

found : find_mount_point sample slash_a ≡ some root_mount
unfolding find_mount_point mount_loop starts_with same_loop
found = refl

open_file_opens_example :
    Opened sample disk
      (disk.file_meta (get_relative_path root_mount slash_a))
      (open_file sample slash_a)
unfolding get_relative_path append c_string equals equals_c same_loop
open_file_opens_example = open_file_opens sample slash_a root_mount tt (omega arith) found refl

-- Handles 1 and 2 are open on the file.
abbrev opened : VirtualFileSystem
opened = record sample {
  file_handles =
      record { id = 1; fs = disk; entry = a_entry; offset = 0 }
      ∷ record { id = 2; fs = disk; entry = a_entry; offset = 0 }
      ∷ [];
  id_counter = 2;
}
