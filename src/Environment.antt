-- ===== src/Environment.antt =====
-- kernel/environment.cpp: the environment variables, which are read from a file.
pub mod Loading
mod Tests
use nekosys.Base.{ℕ, Option, none, some, List, [], ◌∷◌, ◌++◌, Bool, true, false, if◌then◌else◌}
use nekosys.Neko.Text.{Text, c_string}
use nekosys.Neko.IniFile.{IniSection, ini_file, get_section, get_property}
use nekosys.Files.Vfs.{VirtualFileSystem, is_invalid, get_file_meta, open_file, read, close}

-- "/etc/env.ini" and "Environment".
abbrev pub config_file_path : Text
config_file_path =
    b'/' ∷ b'e' ∷ b't' ∷ b'c' ∷ b'/' ∷ b'e' ∷ b'n' ∷ b'v' ∷ b'.' ∷ b'i' ∷ b'n' ∷ b'i' ∷ []

abbrev pub section_name : Text
section_name = b'E' ∷ b'n' ∷ b'v' ∷ b'i' ∷ b'r' ∷ b'o' ∷ b'n' ∷ b'm' ∷ b'e' ∷ b'n' ∷ b't' ∷ []

-- Load, for what the array on the stack holds and what lies behind it, which the parser's string runs
-- into, as the array has no NUL of its own. `none` is the panic; the section is `none` where it is a
-- null pointer.
unfoldable pub load_environment :
    VirtualFileSystem → List ℕ → List ℕ → Option (Option IniSection × VirtualFileSystem)
unfolding get_file_meta open_file read close ini_file get_section c_string
load_environment v stale behind =
    let meta = get_file_meta v config_file_path in
    let opened = open_file v config_file_path in
    let bytes = read opened.1 opened.0 0 meta.size stale in
    if is_invalid meta.entry_type
    then none
    else some
        (get_section (ini_file (c_string (bytes ++ behind))) section_name, close opened.1 opened.0)

-- Get; `none` is a read through the null pointer.
unfoldable pub get_variable : Option IniSection → Text → Option Text
unfolding get_property
get_variable none key = none
get_variable (some s) key = some (get_property s.properties key)
