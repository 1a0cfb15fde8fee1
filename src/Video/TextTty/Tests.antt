-- ===== src/Video/TextTty/Tests.antt =====
-- kernel/video/texttty.cpp: runs of the terminal, and its theorems at a concrete screen.
use nekosys.Base.{◌+◌, ◌≡◌, refl, [], ◌∷◌, arith}
use nekosys.Video.TextTty.{
  TextTty, cell_word, set_cursor_pos, set_color, initialize_tty, put_entry, copy_up, clear_line,
  scroll, clear_lines, clear, advance, put_char, write,
}
use nekosys.Video.TextTty.Screen.{IsValid, Stays, write-Stays}

-- Two lines of three columns, with the cursor at the end of the second.
abbrev small : TextTty
small = record {
  width = 3;
  height = 2;
  cursor_x = 2;
  cursor_y = 1;
  current_color = 7;
  shown_at = 5;
  buffer = λ i. 100 + i;
}

tty_runs :
    ((put_char small b'x').buffer 2 ≡ cell_word b'x' 7)
    × ((put_char small b'x').buffer 1 ≡ 104)
    × ((put_char small b'x').buffer 5 ≡ cell_word b' ' 7)
    × ((put_char small b'x').buffer 6 ≡ 106)
    × ((put_char small 8).cursor_x ≡ 1)
    × ((put_char small 8).buffer 4 ≡ cell_word b' ' 7)
    × ((write (clear small) (b'a' ∷ 10 ∷ b'b' ∷ [])).shown_at ≡ 4)
    × ((initialize_tty small 80 25).width ≡ 80)
unfolding put_char put_entry set_cursor_pos advance scroll copy_up clear_line write clear
    clear_lines initialize_tty set_color
tty_runs = (refl, refl, refl, refl, refl, refl, refl, refl)

small-IsValid : IsValid small
small-IsValid = record { column = omega arith; line = omega arith }

write-Stays_example : Stays small (write small (b'a' ∷ 10 ∷ 8 ∷ []))
write-Stays_example = write-Stays small (b'a' ∷ 10 ∷ 8 ∷ []) small-IsValid
