-- ===== src/Neko/Text/Tests.antt =====
-- libneko/include/nk/string.h: runs of the string, and its theorems at concrete strings.
use nekosys.Base.{◌≡◌, refl, true, false, none, some, [], ◌∷◌}
use nekosys.Neko.Text.{
  Text, c_string, char_at, same_loop, equals_c, equals, append_char, append, starts_with, substring,
}

abbrev usr : Text
usr = b'u' ∷ b's' ∷ b'r' ∷ []

string_runs :
    (char_at usr 1 ≡ b's')
    × (char_at usr 3 ≡ 0)
    × (append usr (b'/' ∷ 0 ∷ b'x' ∷ []) ≡ b'u' ∷ b's' ∷ b'r' ∷ b'/' ∷ [])
    × (append_char usr 0 ≡ usr)
    × (substring usr 2 ≡ some (b'r' ∷ []))
    × (substring usr 4 ≡ none)
    × (equals usr usr ≡ true)
    × (starts_with usr (b's' ∷ []) ≡ false)
unfolding char_at append append_char c_string substring equals equals_c same_loop starts_with
string_runs = (refl, refl, refl, refl, refl, refl, refl, refl)
