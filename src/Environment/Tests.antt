-- ===== src/Environment/Tests.antt =====
-- kernel/environment.cpp with a configuration file of one variable.
use nekosys.Base.{◌++◌, ◌≡◌, refl, true, some, [], ◌∷◌}
use nekosys.Neko.Text.{Text, c_string, append_char, same_loop, equals_c, equals, starts_with}
use nekosys.Neko.IniFile.{ini_file, get_section, get_property}
use nekosys.Files.Vfs.{
  FileSystem, MountPoint, VirtualFileSystem, file, root, mount_loop, find_mount_point,
}
use nekosys.Environment.{config_file_path, section_name, get_variable}

-- "[Environment]", and "A=b" in the next line.
abbrev lines : Text
lines = (b'[' ∷ section_name) ++ (b']' ∷ 10 ∷ b'A' ∷ b'=' ∷ b'b' ∷ 10 ∷ [])

abbrev disk : FileSystem
disk = record {
  exists_path = λ p. true;
  file_meta = λ p. record { name = p; entry_type = file; size = 18; location = 5 };
  read_entry = λ e offset size dst. lines;
  entries = λ p. [];
}

abbrev root_mount : MountPoint
root_mount = record { path = root; fs = disk }

abbrev sample : VirtualFileSystem
sample = record { mounts = root_mount ∷ []; file_handles = []; id_counter = 0 }

found : find_mount_point sample config_file_path ≡ some root_mount
unfolding find_mount_point mount_loop starts_with same_loop
found = refl

variable_run :
    get_variable
      (get_section (ini_file (c_string (lines ++ (0 ∷ b'x' ∷ [])))) section_name)
      (b'A' ∷ [])
    ≡ some (b'b' ∷ [])
unfolding get_variable get_section ini_file c_string get_property equals equals_c same_loop
    append_char
variable_run = refl
