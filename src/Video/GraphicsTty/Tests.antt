-- ===== src/Video/GraphicsTty/Tests.antt =====
-- kernel/video/graphicstty.cpp: runs of the terminal, and its theorems at a concrete one.
use nekosys.Base.{ℕ, ◌≡◌, refl, [], ◌∷◌, arith}
use nekosys.Video.Framebuffer.{VideoManager}
use nekosys.Video.GraphicsTty.{
  GraphicsTty, initialize_graphics, color_value, put_char_graphics, write_graphics,
}
use nekosys.Video.GraphicsTty.Cursor.{IsPlaced, put_char_graphics-IsPlaced}

abbrev monitor : VideoManager
monitor = record {
  xres = 100;
  yres = 60;
  pitch = 400;
  pixel_stride = 4;
  fb_size = 24000;
  secondary_physical = 0x200000;
  framebuffer_controller_proc = 0;
  front = λ i. 0;
  back = λ i. 0;
}

abbrev font : ℕ → ℕ → ℕ
font c r = 1

abbrev terminal : GraphicsTty
terminal = record { width = 10; height = 3; cursor_x = 10; cursor_y = 1; current_color = 255 }

terminal-IsPlaced : IsPlaced terminal
terminal-IsPlaced = record {
  column = omega arith;
  line = omega arith;
  columns = omega arith;
  some_columns = omega arith;
  lines = omega arith;
}

terminal_runs :
    (initialize_graphics terminal 100 60 ≡ record terminal { current_color = 0xAAAAAA })
    × ((put_char_graphics font (record terminal { cursor_x = 0 }) monitor 8).0.cursor_x
        ≡ 4294967295)
    × ((write_graphics font terminal monitor (10 ∷ b'a' ∷ [])).0
        ≡ record terminal { cursor_x = 1; cursor_y = 2 })
unfolding initialize_graphics color_value write_graphics put_char_graphics
terminal_runs = (refl, refl, refl)

put_char_graphics-IsPlaced_example : IsPlaced (put_char_graphics font terminal monitor 8).0
put_char_graphics-IsPlaced_example =
    put_char_graphics-IsPlaced font terminal monitor 8 terminal-IsPlaced (λ e. omega arith)
