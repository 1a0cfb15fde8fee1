-- ===== src/Devices/Keyboard.antt =====
-- kernel/device/keyboard.cpp: the line buffer of the keyboard.
pub mod Lines
mod Tests
use nekosys.Base.{
  ℕ, zero, suc, ◌+◌, ◌-◌, Bool, true, false, ◌&&◌, Option, none, some, List, [], ◌∷◌, ◌++◌, ltb,
  ◌==◌, if◌then◌else◌, length, take, drop,
}

-- The calls of NewScancode in Initialize.
abbrev pub scancodes : List (ℕ × ℕ)
scancodes =
    (2, b'1')
    ∷ (3, b'2')
    ∷ (4, b'3')
    ∷ (5, b'4')
    ∷ (6, b'5')
    ∷ (7, b'&')
    ∷ (8, b'/')
    ∷ (9, b'8')
    ∷ (10, b'9')
    ∷ (11, b'0')
    ∷ (14, 8)
    ∷ (15, 9)
    ∷ (16, b'q')
    ∷ (17, b'w')
    ∷ (18, b'e')
    ∷ (19, b'r')
    ∷ (20, b't')
    ∷ (21, b'z')
    ∷ (22, b'u')
    ∷ (23, b'i')
    ∷ (24, b'o')
    ∷ (25, b'p')
    ∷ (27, b'*')
    ∷ (28, 10)
    ∷ (30, b'a')
    ∷ (31, b's')
    ∷ (32, b'd')
    ∷ (33, b'f')
    ∷ (34, b'g')
    ∷ (35, b'h')
    ∷ (36, b'j')
    ∷ (37, b'k')
    ∷ (38, b'l')
    ∷ (43, b'#')
    ∷ (86, b'<')
    ∷ (44, b'y')
    ∷ (45, b'x')
    ∷ (46, b'c')
    ∷ (47, b'v')
    ∷ (48, b'b')
    ∷ (49, b'n')
    ∷ (50, b'm')
    ∷ (51, b',')
    ∷ (52, b'.')
    ∷ (53, b'-')
    ∷ (57, b' ')
    ∷ []

unfoldable pub assigned : List (ℕ × ℕ) → ℕ → ℕ
assigned [] code = 0
assigned ((c, chr) ∷ rest) code = let other = assigned rest code in if c == code then chr else other

-- The table `scancode_map` after Initialize, where no code is assigned twice.
unfoldable pub map_char : ℕ → ℕ
unfolding assigned
map_char scancode = if ltb scancode 128 then assigned scancodes scancode else 0

-- Adding a character, or taking the last one away for a backspace.
unfoldable pub put_char : List ℕ → ℕ → List ℕ
put_char buf chr =
    if chr == 8 && ltb 0 (length buf) then take (length buf - 1) buf else buf ++ (chr ∷ [])

-- HandleInterrupt on the buffer, for the scan code that the controller gives.
unfoldable pub handle_scancode : List ℕ → ℕ → List ℕ
unfolding map_char put_char
handle_scancode buf scancode =
    let chr = map_char scancode in
    if ltb 128 scancode then buf else if chr == 0 then buf else put_char buf chr

-- IndexOf
unfoldable pub index_of_char : List ℕ → ℕ → Option ℕ
index_of_char [] delim = none
index_of_char (c ∷ cs) delim =
    let rest = index_of_char cs delim in
    if c == delim then some 0 else elim rest [ none ↦ none | some i ↦ some (suc i) ]

-- The newline in front is taken away too.
abbrev pub drop_newline : List ℕ → List ℕ
drop_newline [] = []
drop_newline (c ∷ cs) = if c == 10 then cs else c ∷ cs

-- ReadUntil: what it writes to `dst`, whose length it returns, and the buffer after it.
unfoldable pub read_until : List ℕ → ℕ → ℕ → List ℕ × List ℕ
unfolding index_of_char
read_until buf max_size delim = elim (index_of_char buf delim) [
  | none ↦ ([], buf)
  | some idx ↦
      let size = if ltb max_size idx then max_size else idx in
      (take size buf, drop_newline (drop size buf))
]
