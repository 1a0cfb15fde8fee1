-- ===== src/Video/Framebuffer/Tests.antt =====
-- kernel/video/videomanager.cpp: runs of the two buffers, and their theorems at a concrete screen.
use nekosys.Base.{◌+◌, ◌*◌, arith, ◌≡◌, ◌⊎◌, refl}
use nekosys.Video.Framebuffer.{
  VideoManager, acquire_framebuffer, copy_bytes, flush_rows, flush_block, flush_buffer,
}
use nekosys.Video.Framebuffer.Flush.{InRows, flush_block_shows}

abbrev screen : VideoManager
screen = record {
  xres = 4;
  yres = 3;
  pitch = 16;
  pixel_stride = 4;
  fb_size = 48;
  secondary_physical = 0x200000;
  framebuffer_controller_proc = 0;
  front = λ i. 0;
  back = λ i. i;
}

framebuffer_runs :
    ((flush_block screen 1 1 2 2).front 20 ≡ 20)
    × ((flush_block screen 1 1 2 2).front 28 ≡ 0)
    × ((flush_block screen 1 1 2 2).front 43 ≡ 43)
    × ((flush_buffer screen).front 47 ≡ 47)
    × ((acquire_framebuffer screen 5).framebuffer_controller_proc ≡ 5)
unfolding flush_block flush_rows copy_bytes flush_buffer acquire_framebuffer
framebuffer_runs = (refl, refl, refl, refl, refl)

flush_block_shows_example :
    (InRows (2 * 4) 16 2 (1 * 16 + 1 * 4) 20 × ((flush_block screen 1 1 2 2).front 20 ≡ 20))
    ⊎ ((¬ (InRows (2 * 4) 16 2 (1 * 16 + 1 * 4) 20)) × ((flush_block screen 1 1 2 2).front 20 ≡ 0))
flush_block_shows_example = flush_block_shows screen 1 1 2 2 20 (omega arith)
