-- ===== src/Video/GraphicsTty/Cursor.antt =====
-- kernel/video/graphicstty.cpp: where the cursor goes, and who may draw.
use nekosys.Base.{
  ℕ, ◌+◌, ◌*◌, ◌%◌, ◌≤◌, ◌<◌, ◌≡◌, ◌≢◌, refl, ap, true, false, leb, ◌==◌, arith, Bool-cases, inl,
  inr,
}
use nekosys.Base.Words.{word, add32}
use nekosys.Video.Framebuffer.{VideoManager, flush_block, kernel_controls_framebuffer}
use nekosys.Video.GraphicsTty.{
  GraphicsTty, new_line, put_backspace, put_glyph, put_char_graphics, draw_glyph,
}

-- The cursor is in a line, at a column or behind the last one.
pub record IsPlaced (g : GraphicsTty) : Type 0 where
  pub column : g.cursor_x ≤ g.width
  pub line : g.cursor_y < g.height
  pub columns : g.width + 1 < word
  pub some_columns : 0 < g.width
  pub lines : g.height < word

new_line-IsPlaced : (g : GraphicsTty) (vm : VideoManager) → IsPlaced g → IsPlaced (new_line g vm).0
unfolding new_line
new_line-IsPlaced g vm p = elim (Bool-cases (leb g.height (add32 g.cursor_y 1))) [
  | inl last ↦ rw last (record {
    column = omega arith;
    line = p.line;
    columns = p.columns;
    some_columns = p.some_columns;
    lines = p.lines;
  })
  | inr more ↦ rw more (record {
    column = omega arith;
    line = ground (arith, more);
    columns = p.columns;
    some_columns = p.some_columns;
    lines = p.lines;
  })
]

-- A line's end takes the cursor to the first column, and keeps the terminal's size.
new_line_column :
    (g : GraphicsTty) (vm : VideoManager)
    → ((new_line g vm).0.cursor_x ≡ 0) × ((new_line g vm).0.width ≡ g.width)
unfolding new_line
new_line_column g vm = elim (Bool-cases (leb g.height (add32 g.cursor_y 1))) [
  | inl last ↦ rw last (refl, refl)
  | inr more ↦ rw more (refl, refl)
]

step_column :
    (g : GraphicsTty)
    → IsPlaced g
    → g.cursor_x < g.width
    → IsPlaced (record g { cursor_x = add32 g.cursor_x 1 })
step_column g p room = record {
  column = omega (arith, p.columns, room);
  line = p.line;
  columns = p.columns;
  some_columns = p.some_columns;
  lines = p.lines;
}

put_glyph-IsPlaced :
    (font : ℕ → ℕ → ℕ) (g : GraphicsTty) (vm : VideoManager) (c : ℕ)
    → IsPlaced g
    → IsPlaced (put_glyph font g vm c).0
unfolding put_glyph
put_glyph-IsPlaced font g vm c p = elim (Bool-cases (leb g.width g.cursor_x)) [
  | inl full ↦
      let (first, width) = new_line_column g vm in
      rw full (
        step_column (new_line g vm).0 (new_line-IsPlaced g vm p)
          (omega (arith, first, width, p.some_columns)))
  | inr room ↦ rw room (step_column g p (ground (arith, room)))
]

put_backspace-IsPlaced :
    (g : GraphicsTty) (vm : VideoManager)
    → IsPlaced g
    → 0 < g.cursor_x
    → IsPlaced (put_backspace g vm).0
unfolding put_backspace
put_backspace-IsPlaced g vm p back = record {
  column = omega (arith, p.column, p.columns, back);
  line = p.line;
  columns = p.columns;
  some_columns = p.some_columns;
  lines = p.lines;
}

-- On a terminal with at least one column, and with fewer columns and lines than a word counts, the
-- cursor stays on the screen: after any character but a backspace in the first column it is in a line
-- of the terminal, at a column or right behind the last one, if it was before.
pub put_char_graphics-IsPlaced :
    (font : ℕ → ℕ → ℕ) (g : GraphicsTty) (vm : VideoManager) (c : ℕ)
    → IsPlaced g
    → (c ≡ 8 → 0 < g.cursor_x)
    → IsPlaced (put_char_graphics font g vm c).0
unfolding put_char_graphics
put_char_graphics-IsPlaced font g vm c p back = elim (Bool-cases (kernel_controls_framebuffer vm)) [
  | inr others ↦ rw others p
  | inl ours ↦ elim (Bool-cases (c == 10)) [
    | inl newline ↦ rw (ours, newline) (new_line-IsPlaced g vm p)
    | inr other ↦ elim (Bool-cases (c == 8)) [
      | inl eight ↦
          rw (ours, other, eight) (put_backspace-IsPlaced g vm p (back (ground (arith, eight))))
      | inr glyph ↦ rw (ours, other, glyph) (put_glyph-IsPlaced font g vm c p)
    ]
  ]
]

-- What PutChar does of a character behind the last column: the line is ended, and the glyph goes to the
-- place that the cursor had before.
put_char_graphics_skips :
    (font : ℕ → ℕ → ℕ) (g : GraphicsTty) (vm : VideoManager) (c : ℕ)
    → IsPlaced g
    → vm.framebuffer_controller_proc ≡ 0
    → g.cursor_x ≡ g.width
    → g.cursor_y + 1 < g.height
    → c ≢ 8
    → c ≢ 10
    → put_char_graphics font g vm c ≡ (
      record g { cursor_x = 1; cursor_y = g.cursor_y + 1 },
      flush_block
          (draw_glyph vm
            (font c)
            g.current_color
            (g.width * 9 % word)
            (g.cursor_y * 18 % word)
            16
            0)
          (g.width * 9 % word)
          (g.cursor_y * 18 % word)
          9
          18,
    )
unfolding put_char_graphics put_glyph new_line
put_char_graphics_skips font g vm c p ours full more no_back no_line =
    let free : (vm.framebuffer_controller_proc == 0) ≡ true = ground (arith, ours) in
    let eight : (c == 8) ≡ false = ground (arith, no_back) in
    let ten : (c == 10) ≡ false = ground (arith, no_line) in
    let end : leb g.width g.cursor_x ≡ true = ground (arith, full) in
    let inside : leb g.height (add32 g.cursor_y 1) ≡ false = ground (arith, more, p.lines) in
    let next : add32 g.cursor_y 1 ≡ g.cursor_y + 1 = omega (arith, more, p.lines) in
    rw (free, eight, ten, end, inside, next)
      (ap
        (λ z. (
          record g { cursor_x = 1; cursor_y = g.cursor_y + 1 },
          flush_block
              (draw_glyph vm (font c) g.current_color (z * 9 % word) (g.cursor_y * 18 % word) 16 0)
              (z * 9 % word) (g.cursor_y * 18 % word) 9 18,
        ))
        full)
