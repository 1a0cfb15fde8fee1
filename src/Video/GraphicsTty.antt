-- ===== src/Video/GraphicsTty.antt =====
-- kernel/video/graphicstty.cpp: the terminal on the framebuffer. The font, a table of sixteen rows
-- for each character in kernel/include/kernel/video/kernelfont.h, is a parameter.
pub mod Cursor
mod Tests
use nekosys.Base.{
  ℕ, zero, suc, ◌+◌, ◌-◌, ◌*◌, ◌/◌, ◌%◌, ◌^◌, Bool, true, false, not, List, [], ◌∷◌, leb, ltb, ◌==◌,
  if◌then◌else◌,
}
use nekosys.Base.Words.{word, add32, sub32}
use nekosys.Memory.PageManager.{update}
use nekosys.Video.Framebuffer.{
  VideoManager, kernel_controls_framebuffer, set_pixel, flush_block, flush_buffer,
}

abbrev pub kfnt_char_width : ℕ
kfnt_char_width = 9

abbrev pub kfnt_line_height : ℕ
kfnt_line_height = 18

pub record GraphicsTty : Type 0 where
  pub width : ℕ
  pub height : ℕ
  pub cursor_x : ℕ
  pub cursor_y : ℕ
  pub current_color : ℕ

-- The table of SetColor by the number of the color; other numbers leave the color.
unfoldable pub color_value : ℕ → ℕ → ℕ
color_value color old =
    if color == 0
    then 0x000000
    else if color == 8
    then 0x555555
    else if color == 1
    then 0x0000AA
    else if color == 9
    then 0x5555FF
    else if color == 2
    then 0x00AA00
    else if color == 10
    then 0x55FF55
    else if color == 3
    then 0x00AAAA
    else if color == 11
    then 0x55FFFF
    else if color == 4
    then 0xAA0000
    else if color == 12
    then 0xFF5555
    else if color == 5
    then 0xAA00AA
    else if color == 13
    then 0xFF55FF
    else if color == 6
    then 0xAA5500
    else if color == 14
    then 0xFFFF55
    else if color == 7
    then 0xAAAAAA
    else if color == 15
    then 0xFFFFFF
    else old

unfoldable pub set_graphics_color : GraphicsTty → ℕ → GraphicsTty
unfolding color_value
set_graphics_color g color = record g { current_color = color_value color g.current_color }

unfoldable pub initialize_graphics : GraphicsTty → ℕ → ℕ → GraphicsTty
unfolding set_graphics_color
initialize_graphics g width height =
    set_graphics_color
      (record g { width = sub32 (width / kfnt_char_width) 1; height = height / kfnt_line_height }) 7

-- memcpy within the back buffer from `by` bytes further on, over the `n` bytes from `i` on.
unfoldable pub move_down : (ℕ → ℕ) → ℕ → ℕ → ℕ → ℕ → ℕ
move_down buffer by zero i = buffer
move_down buffer by (suc n) i = move_down (update buffer i (buffer (i + by))) by n (i + 1)

-- memset to 0 of the `n` bytes from `i` on.
unfoldable pub zero_bytes : (ℕ → ℕ) → ℕ → ℕ → ℕ → ℕ
zero_bytes buffer zero i = buffer
zero_bytes buffer (suc n) i = zero_bytes (update buffer i 0) n (i + 1)

unfoldable pub scroll_graphics : VideoManager → VideoManager
unfolding move_down zero_bytes flush_buffer
scroll_graphics vm =
    let line_stride = vm.pitch * kfnt_line_height in
    let rest = sub32 vm.fb_size line_stride in
    flush_buffer
      (record vm { back = zero_bytes (move_down vm.back line_stride rest 0) line_stride rest })

-- The end of a line.
unfoldable pub new_line : GraphicsTty → VideoManager → GraphicsTty × VideoManager
unfolding scroll_graphics
new_line g vm =
    if leb g.height (add32 g.cursor_y 1)
    then (record g { cursor_x = 0 }, scroll_graphics vm)
    else (record g { cursor_x = 0; cursor_y = add32 g.cursor_y 1 }, vm)

-- The pixels (x + i, y + j) for the `n` values of j from j on, and of all i below `w`.
unfoldable pub blacken_column : VideoManager → ℕ → ℕ → ℕ → ℕ → VideoManager
blacken_column vm x y zero j = vm
blacken_column vm x y (suc n) j = blacken_column (set_pixel vm x (add32 y j) 0) x y n (j + 1)

unfoldable pub blacken : VideoManager → ℕ → ℕ → ℕ → ℕ → VideoManager
unfolding blacken_column
blacken vm x y zero i = vm
blacken vm x y (suc n) i =
    blacken (blacken_column vm (add32 x i) y kfnt_line_height 0) x y n (i + 1)

-- The `n` columns from `c` on of a glyph's row.
unfoldable pub draw_row : VideoManager → ℕ → ℕ → ℕ → ℕ → ℕ → ℕ → VideoManager
draw_row vm row color x y zero c = vm
draw_row vm row color x y (suc n) c =
    draw_row (if row / 2 ^ c % 2 == 1 then set_pixel vm (add32 x c) y color else vm) row color x y n
      (c + 1)

-- The `n` rows from `r` on of a glyph.
unfoldable pub draw_glyph : VideoManager → (ℕ → ℕ) → ℕ → ℕ → ℕ → ℕ → ℕ → VideoManager
unfolding draw_row
draw_glyph vm rows color x y zero r = vm
draw_glyph vm rows color x y (suc n) r =
    draw_glyph (draw_row vm (rows r) color x (add32 y r) 16 0) rows color x y n (r + 1)

-- PutChar of a backspace, a newline and any other character. The place (x, y) of the glyph is that of
-- the cursor before the line is ended.
unfoldable pub put_backspace : GraphicsTty → VideoManager → GraphicsTty × VideoManager
put_backspace g vm =
    let g' = record g { cursor_x = sub32 g.cursor_x 1 } in
    let x = g'.cursor_x * kfnt_char_width % word in
    let y = g'.cursor_y * kfnt_line_height % word in
    (g', flush_block (blacken vm x y kfnt_char_width 0) x y kfnt_char_width kfnt_line_height)

unfoldable pub put_glyph : (ℕ → ℕ → ℕ) → GraphicsTty → VideoManager → ℕ → GraphicsTty × VideoManager
unfolding new_line
put_glyph font g vm c =
    let x = g.cursor_x * kfnt_char_width % word in
    let y = g.cursor_y * kfnt_line_height % word in
    let (g1, vm1) = if leb g.width g.cursor_x then new_line g vm else (g, vm) in
    (
      record g1 { cursor_x = add32 g1.cursor_x 1 },
      flush_block (draw_glyph vm1 (font c) g.current_color x y 16 0) x y kfnt_char_width
          kfnt_line_height,
    )

unfoldable pub put_char_graphics :
    (ℕ → ℕ → ℕ) → GraphicsTty → VideoManager → ℕ → GraphicsTty × VideoManager
unfolding new_line put_backspace put_glyph
put_char_graphics font g vm c =
    if not (kernel_controls_framebuffer vm)
    then (g, vm)
    else if c == 10
    then new_line g vm
    else if c == 8
    then put_backspace g vm
    else put_glyph font g vm c

unfoldable pub write_graphics :
    (ℕ → ℕ → ℕ) → GraphicsTty → VideoManager → List ℕ → GraphicsTty × VideoManager
unfolding put_char_graphics
write_graphics font g vm [] = (g, vm)
write_graphics font g vm (c ∷ cs) =
    let (g', vm') = put_char_graphics font g vm c in write_graphics font g' vm' cs
