-- ===== src/Neko/IniFile.antt =====
-- libneko/include/nk/inifile.h: the parser of ini files.
pub mod Sections
mod Tests
use nekosys.Base.{
  ℕ, ◌<◌, Bool, true, false, not, Option, none, some, List, [], ◌∷◌, ◌++◌, ◌==◌, ◌&&◌,
  if◌then◌else◌, ltb, length,
}
use nekosys.Neko.Text.{Text, equals, append_char}

pub record IniProperty : Type 0 where
  pub key : Text
  pub value : Text

pub record IniSection : Type 0 where
  pub name : Text
  pub properties : List IniProperty

pub data ParserState : Type 0 where
  comment text section_name property_value drop_rest : ParserState

abbrev pub in_text : ParserState → Bool
in_text text = true
in_text _ = false

abbrev pub in_section_name : ParserState → Bool
in_section_name section_name = true
in_section_name _ = false

-- The variables of the constructor; `none` is a null pointer.
pub record IniParser : Type 0 where
  pub sections : List IniSection
  pub current_section : Option IniSection
  pub current_property : Option IniProperty
  pub state : ParserState

abbrev pub new_section : IniSection
new_section = record { name = []; properties = [] }

abbrev pub new_property : IniProperty
new_property = record { key = []; value = [] }

abbrev pub add_property : IniSection → IniProperty → IniSection
add_property s p = record s { properties = s.properties ++ (p ∷ []) }

-- At the end of a line a property with a key goes into the current section.
unfoldable pub end_line : IniParser → IniParser
end_line p = elim p.current_section [
  | none ↦ record p { state = text }
  | some s ↦ elim p.current_property [
    | none ↦ record p { state = text }
    | some q ↦
        if ltb 0 (length q.key)
        then record p {
          current_section = some (add_property s q);
          current_property = some new_property;
          state = text;
        }
        else record p { state = text }
  ]
]

-- `if (currentSection = nullptr)` assigns, and is false: the section before is dropped.
unfoldable pub begin_section : IniParser → IniParser
begin_section p = record p { current_section = some new_section; state = section_name }

unfoldable pub end_section_name : IniParser → IniParser
end_section_name p = record p {
  state = drop_rest;
  current_property = elim p.current_property [ none ↦ some new_property | some q ↦ some q ];
}

-- Any other character, by the state.
unfoldable pub collect : IniParser → ℕ → IniParser
collect p chr = elim p.state [
  | section_name ↦ record p {
    current_section = elim p.current_section [
      | none ↦ none
      | some s ↦ some (record s { name = append_char s.name chr })
    ];
  }
  | text ↦ record p {
    current_property = elim p.current_property [
      | none ↦ none
      | some q ↦ some (record q { key = append_char q.key chr })
    ];
  }
  | property_value ↦ record p {
    current_property = elim p.current_property [
      | none ↦ none
      | some q ↦ some (record q { value = append_char q.value chr })
    ];
  }
  | comment ↦ p
  | drop_rest ↦ p
]

unfoldable pub read_char : IniParser → ℕ → IniParser
unfolding end_line begin_section end_section_name collect
read_char p chr =
    if chr == 13
    then p
    else if chr == 10
    then end_line p
    else if chr == b'[' && in_text p.state
    then begin_section p
    else if chr == b']' && in_section_name p.state
    then end_section_name p
    else if chr == b'='
    then record p { state = property_value }
    else if chr == b';'
    then record p { state = comment }
    else collect p chr

unfoldable pub read_text : Text → IniParser → IniParser
unfolding read_char
read_text [] p = p
read_text (c ∷ cs) p = read_text cs (read_char p c)

-- The last property goes into the last section, which is kept if it has one.
unfoldable pub last_section : IniSection → Option IniProperty → IniSection
last_section s none = s
last_section s (some p) = if ltb 0 (length p.key) then add_property s p else s

unfoldable pub finish_file : IniParser → List IniSection
unfolding last_section
finish_file p = elim p.current_section [
  | none ↦ p.sections
  | some s ↦
      let s' = last_section s p.current_property in
      if length s'.properties == 0 then p.sections else p.sections ++ (s' ∷ [])
]

abbrev pub initial : IniParser
initial = record { sections = []; current_section = none; current_property = none; state = text }

-- The constructor, as the sections that it leaves.
unfoldable pub ini_file : Text → List IniSection
unfolding read_text finish_file
ini_file buf = finish_file (read_text buf initial)

unfoldable pub get_property : List IniProperty → Text → Text
get_property [] key = []
get_property (p ∷ ps) key =
    let rest = get_property ps key in if equals p.key key then p.value else rest

unfoldable pub get_section : List IniSection → Text → Option IniSection
get_section [] name = none
get_section (s ∷ ss) name =
    let rest = get_section ss name in if equals s.name name then some s else rest
