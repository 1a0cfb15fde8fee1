-- ===== src/Neko/IniFile/Tests.antt =====
-- libneko/include/nk/inifile.h: runs of the parser, and its theorem at a concrete file.
use nekosys.Base.{◌≡◌, refl, none, some, [], ◌∷◌, length}
use nekosys.Neko.Text.{Text, c_string, same_loop, equals_c, equals, append_char}
use nekosys.Neko.IniFile.{
  end_line, begin_section, end_section_name, collect, read_char, read_text, last_section,
  finish_file, ini_file, get_property, get_section,
}

-- Two sections, "[a]" with "k=v" and "[b]" with "w=x".
abbrev two_sections : Text
two_sections =
    b'[' ∷ b'a' ∷ b']' ∷ 10 ∷ b'k' ∷ b'=' ∷ b'v' ∷ 10 ∷ b'[' ∷ b'b' ∷ b']' ∷ 10 ∷ b'w' ∷ b'=' ∷ b'x'
    ∷ []

ini_runs :
    (length (ini_file two_sections) ≡ 1)
    × (get_section (ini_file two_sections) (b'a' ∷ []) ≡ none)
    × (get_section (ini_file two_sections) (b'b' ∷ [])
        ≡ some (record {
          name = b'b' ∷ [];
          properties = record { key = b'w' ∷ []; value = b'x' ∷ [] } ∷ [];
        }))
    × (get_property (record { key = b'w' ∷ []; value = b'x' ∷ [] } ∷ []) (b'w' ∷ []) ≡ b'x' ∷ [])
unfolding ini_file read_text read_char end_line begin_section end_section_name collect last_section
    finish_file get_section get_property equals equals_c same_loop append_char c_string
ini_runs = (refl, refl, refl, refl)
