-- ===== src/Neko/Text.antt =====
-- libneko/include/nk/string.h: nk::String as the list of its bytes.
pub mod Laws
mod Tests
use nekosys.Base.{
  ℕ, zero, suc, ◌-◌, Bool, true, false, not, ◌&&◌, Option, none, some, List, [], ◌∷◌, ◌++◌, ltb,
  leb, ◌==◌, if◌then◌else◌, length, get_or, drop,
}

abbrev pub Text : Type 0
Text = List ℕ

-- What strlen and the constructor from a C string see of a buffer: the bytes before the first NUL.
unfoldable pub c_string : List ℕ → Text
c_string [] = []
c_string (c ∷ cs) = if c == 0 then [] else c ∷ c_string cs

-- `operator[]`
unfoldable pub char_at : Text → ℕ → ℕ
char_at s index = if leb (length s) index then 0 else get_or s index 0

-- The loop of `operator==` and of `StartsWith`: are the `n` bytes from `i` on the same?
unfoldable pub same_loop : Text → Text → ℕ → Bool
same_loop s t zero = true
same_loop [] t (suc n) = false
same_loop (c ∷ s) [] (suc n) = false
same_loop (c ∷ s) (d ∷ t) (suc n) = if c == d then same_loop s t n else false

-- `operator==` on a C string, and on a String, which goes through its C string.
unfoldable pub equals_c : Text → List ℕ → Bool
unfolding same_loop c_string
equals_c s other =
    if length s == length (c_string other) then same_loop s other (length s) else false

unfoldable pub equals : Text → Text → Bool
unfolding equals_c
equals s other = if length s == length other then equals_c s other else false

-- `Append`, of a character and of a String; the buffer is read back as a C string.
unfoldable pub append_char : Text → ℕ → Text
unfolding c_string
append_char s c = c_string (s ++ (c ∷ []))

unfoldable pub append : Text → Text → Text
unfolding c_string
append s other = c_string (s ++ other)

unfoldable pub starts_with : Text → Text → Bool
unfolding same_loop
starts_with s other =
    if ltb (length s) (length other) then false else same_loop s other (length other)

-- `Substring`; `none` is an offset behind the end, where the length wraps round.
unfoldable pub substring : Text → ℕ → Option Text
substring s offset = if ltb (length s) offset then none else some (drop offset s)
