-- ===== src/Video/TextTty.antt =====
-- kernel/video/texttty.cpp: the terminal of the text mode.
pub mod Screen
mod Tests
use nekosys.Base.{
  ℕ, zero, suc, ◌+◌, ◌-◌, ◌*◌, ◌%◌, ◌<◌, Bool, true, false, ◌||◌, List, [], ◌∷◌, ltb, ◌==◌,
  if◌then◌else◌,
}
use nekosys.Memory.PageManager.{update}

-- `buffer i` is the word of character cell `i`, also behind the end of the screen; `shown_at` is the
-- position that the ports of the hardware cursor were given last.
pub record TextTty : Type 0 where
  pub width : ℕ
  pub height : ℕ
  pub cursor_x : ℕ
  pub cursor_y : ℕ
  pub current_color : ℕ
  pub shown_at : ℕ
  pub buffer : ℕ → ℕ

-- (color << 8) | c, of two bytes.
abbrev pub cell_word : ℕ → ℕ → ℕ
cell_word c color = color * 256 + c

unfoldable pub set_cursor_pos : TextTty → ℕ → ℕ → TextTty
set_cursor_pos t x y = record t { cursor_x = x; cursor_y = y; shown_at = (y * t.width + x) % 65536 }

unfoldable pub set_color : TextTty → ℕ → TextTty
set_color t color = record t { current_color = color }

-- Initialize, of a terminal over the cells that the memory holds.
unfoldable pub initialize_tty : TextTty → ℕ → ℕ → TextTty
unfolding set_color
initialize_tty t width height = set_color (record t { width = width; height = height }) 7

unfoldable pub put_entry : TextTty → ℕ → ℕ → ℕ → ℕ → TextTty
put_entry t c color x y = record t {
  buffer = update t.buffer (x + y * t.width) (cell_word c color);
}

-- memcpy(buffer, buffer + width, …) over the `n` cells from `i` on, in ascending order.
unfoldable pub copy_up : (ℕ → ℕ) → ℕ → ℕ → ℕ → ℕ → ℕ
copy_up buffer width zero i = buffer
copy_up buffer width (suc n) i = copy_up (update buffer i (buffer (i + width))) width n (i + 1)

-- The `n` cells of line `y` from column `x` on are cleared.
unfoldable pub clear_line : TextTty → ℕ → ℕ → ℕ → TextTty
unfolding put_entry
clear_line t y zero x = t
clear_line t y (suc n) x = clear_line (put_entry t b' ' t.current_color x y) y n (x + 1)

unfoldable pub scroll : TextTty → TextTty
unfolding copy_up clear_line
scroll t =
    clear_line (record t { buffer = copy_up t.buffer t.width ((t.height - 1) * t.width) 0 })
      t.cursor_y t.width 0

-- The lines from `y` on, `n` of them, are cleared.
unfoldable pub clear_lines : TextTty → ℕ → ℕ → TextTty
unfolding clear_line
clear_lines t zero y = t
clear_lines t (suc n) y = clear_lines (clear_line t y t.width 0) n (y + 1)

unfoldable pub clear : TextTty → TextTty
unfolding clear_lines set_cursor_pos
clear t = set_cursor_pos (clear_lines t t.height 0) 0 0

-- The end of PutChar, where the cursor has gone one column on.
unfoldable pub advance : TextTty → Bool → TextTty
unfolding scroll set_cursor_pos
advance t newline =
    let moved =
      if t.cursor_x + 1 == t.width || newline
      then (if t.cursor_y + 1 == t.height
          then scroll (record t { cursor_x = 0 })
          else record t { cursor_x = 0; cursor_y = t.cursor_y + 1 })
      else record t { cursor_x = t.cursor_x + 1 } in
    set_cursor_pos moved moved.cursor_x moved.cursor_y

unfoldable pub put_char : TextTty → ℕ → TextTty
unfolding put_entry set_cursor_pos advance
put_char t c =
    let newline = c == 10 || c == 13 in
    let erased = set_cursor_pos t (t.cursor_x - 1) t.cursor_y in
    if c == 8
    then (if ltb 0 t.cursor_x
        then put_entry erased b' ' t.current_color erased.cursor_x erased.cursor_y
        else t)
    else advance (if newline then t else put_entry t c t.current_color t.cursor_x t.cursor_y)
        newline

unfoldable pub write : TextTty → List ℕ → TextTty
unfolding put_char
write t [] = t
write t (c ∷ cs) = write (put_char t c) cs
