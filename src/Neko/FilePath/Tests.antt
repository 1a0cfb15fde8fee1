-- ===== src/Neko/FilePath/Tests.antt =====
-- libneko/include/nk/path.h: runs of the path, and its theorems at concrete paths.
use nekosys.Base.{◌≡◌, refl, true, false, some, [], ◌∷◌, arith}
use nekosys.Neko.Text.{Text, c_string, same_loop, equals_c, append_char, append}
use nekosys.Neko.FilePath.{
  FilePath, IsValid, parse_loop, parse, join, resolve_loop, resolve, print_parts, to_string,
  get_filename, get_directory_path, is_root,
}
use nekosys.Neko.FilePath.Print.{parse-to_string}
use nekosys.Neko.FilePath.Resolve.{Follows, resolve-Follows}

abbrev usr : Text
usr = b'u' ∷ b's' ∷ b'r' ∷ []

abbrev bin : Text
bin = b'b' ∷ []

-- /usr/b
abbrev bin_dir : FilePath
bin_dir = record { is_absolute = true; parts = usr ∷ bin ∷ [] }

-- ../b
abbrev sibling : FilePath
sibling = record { is_absolute = false; parts = (b'.' ∷ b'.' ∷ []) ∷ bin ∷ [] }

abbrev root_dir : FilePath
root_dir = record { is_absolute = true; parts = [] }

bin_dir-IsValid : IsValid bin_dir
bin_dir-IsValid = (
  (
    omega arith,
    ((omega arith, omega arith), ((omega arith, omega arith), ((omega arith, omega arith), tt))),
  ),
  ((omega arith, ((omega arith, omega arith), tt)), tt),
)

path_runs :
    (parse (b'/' ∷ b'u' ∷ b'/' ∷ b'/' ∷ b'b' ∷ [])
      ≡ record { is_absolute = true; parts = (b'u' ∷ []) ∷ bin ∷ [] })
    × (to_string sibling ≡ b'.' ∷ b'.' ∷ b'/' ∷ b'b' ∷ b'/' ∷ [])
    × (resolve bin_dir sibling ≡ bin_dir)
    × (resolve bin_dir root_dir ≡ bin_dir)
    × (join bin_dir sibling
        ≡ record { is_absolute = true; parts = usr ∷ bin ∷ (b'.' ∷ b'.' ∷ []) ∷ bin ∷ [] })
    × (get_filename bin_dir ≡ some bin)
    × (get_directory_path bin_dir ≡ some (record { is_absolute = false; parts = usr ∷ [] }))
    × (is_root root_dir ≡ true)
unfolding parse parse_loop to_string print_parts resolve resolve_loop join get_filename
    get_directory_path is_root append append_char c_string equals_c same_loop
path_runs = (refl, refl, refl, refl, refl, refl, refl, refl)

parse-to_string_example : parse (to_string bin_dir) ≡ bin_dir
parse-to_string_example = parse-to_string bin_dir bin_dir-IsValid

resolve-Follows_example :
    ((resolve bin_dir sibling).is_absolute ≡ true)
    × Follows bin_dir.parts sibling.parts (resolve bin_dir sibling).parts
resolve-Follows_example = resolve-Follows bin_dir sibling (omega arith) refl
