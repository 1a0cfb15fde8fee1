-- ===== src/Neko/FilePath.antt =====
-- libneko/include/nk/path.h: nk::Path.
pub mod Print
pub mod Resolve
mod Tests
use nekosys.Base.{
  ℕ, zero, suc, ◌+◌, ◌-◌, ◌<◌, ◌≡◌, ◌≢◌, Bool, true, false, Option, none, some, List, [], ◌∷◌, ◌++◌,
  ◌&&◌, ltb, leb, ◌==◌, if◌then◌else◌, length, get_elem?, take, erase_idx, All,
}
use nekosys.Neko.Text.{Text, append_char, append, equals_c}

pub record FilePath : Type 0 where
  pub is_absolute : Bool
  pub parts : List Text

abbrev pub slash : ℕ
slash = b'/'

abbrev pub dot : Text
dot = b'.' ∷ []

abbrev pub dot_dot : Text
dot_dot = b'.' ∷ b'.' ∷ []

abbrev pub is_nonempty : Text → Bool
is_nonempty t = ltb 0 (length t)

-- The end of the constructor: a last part that no slash follows.
abbrev pub finish : Bool → List Text → Text → FilePath
finish abs parts temp = record {
  is_absolute = abs;
  parts = if is_nonempty temp then parts ++ (temp ∷ []) else parts;
}

-- The constructor's loop over the characters left.
unfoldable pub parse_loop : Text → Bool → List Text → Text → FilePath
parse_loop [] abs parts temp = finish abs parts temp
parse_loop (c ∷ cs) abs parts temp =
    parse_loop cs
      (if c == slash && (if is_nonempty temp then false else length parts == 0) then true else abs)
      (if c == slash && is_nonempty temp then parts ++ (temp ∷ []) else parts)
      (if c == slash then [] else append_char temp c)

unfoldable pub parse : Text → FilePath
unfolding parse_loop
parse path = parse_loop path false [] []

unfoldable pub join : FilePath → FilePath → FilePath
join a b = record { is_absolute = true; parts = a.parts ++ b.parts }

-- nk::Vector::Remove on the sequence held; behind the end it only lowers the size.
abbrev pub remove_part : List Text → ℕ → List Text
remove_part parts j =
    if ltb j (length parts) then erase_idx parts j else take (length parts - 1) parts

-- The second loop of Resolve, over the parts left, with the result's parts and `j`.
unfoldable pub resolve_loop : List Text → List Text → ℕ → List Text
resolve_loop [] result j = result
resolve_loop (part ∷ rest) result j =
    let skip = equals_c part dot in
    let pop = equals_c part dot_dot && ltb 0 (length result) in
    resolve_loop rest
      (if skip then result else if pop then remove_part result j else result ++ (part ∷ []))
      (if skip then j + 1 else if pop then j else j + 1)

-- The loop of ToString.
unfoldable pub print_parts : List Text → Text → Text
print_parts [] result = result
print_parts (part ∷ rest) result = print_parts rest (append result (append part (slash ∷ [])))

unfoldable pub to_string : FilePath → Text
unfolding print_parts
to_string p = print_parts p.parts (if p.is_absolute then append [] (slash ∷ []) else [])

unfoldable pub resolve : FilePath → FilePath → FilePath
unfolding resolve_loop
resolve base path =
    if length path.parts == 0
    then parse (to_string base)
    else if path.is_absolute
    then parse (to_string path)
    else record {
      is_absolute = true;
      parts = resolve_loop path.parts base.parts (length base.parts);
    }

-- `none` is a path without parts, where the source indexes with -1.
unfoldable pub get_filename : FilePath → Option Text
get_filename p = if length p.parts == 0 then none else get_elem? p.parts (length p.parts - 1)

-- For a path without parts the source's bound wraps round; `none` stands for that.
unfoldable pub get_directory_path : FilePath → Option FilePath
get_directory_path p =
    if length p.parts == 0
    then none
    else some (record { is_absolute = false; parts = take (length p.parts - 1) p.parts })

unfoldable pub is_root : FilePath → Bool
is_root p = length p.parts == 0

-- A name between slashes: not empty, and without slash or NUL.
abbrev pub IsPart : Text → Type 0
IsPart t = (0 < length t) × All (λ c. (c ≢ slash) × (c ≢ 0)) t

abbrev pub IsValid : FilePath → Type 0
IsValid p = All IsPart p.parts
