-- ===== src/Video/Framebuffer.antt =====
-- kernel/video/videomanager.cpp: the two buffers of the screen.
pub mod Flush
mod Tests
use nekosys.Base.{
  ℕ, zero, suc, ◌+◌, ◌*◌, ◌/◌, ◌%◌, Bool, true, false, ◌&&◌, ◌||◌, ltb, leb, ◌==◌, if◌then◌else◌,
}
use nekosys.Base.Words.{word, add32}
use nekosys.Memory.PageManager.{update}

-- `front` and `back` are the bytes from `framebuffer` and from `secondaryBuffer` on, by their
-- offsets; the mode gives the resolution and the bytes of a line.
pub record VideoManager : Type 0 where
  pub xres : ℕ
  pub yres : ℕ
  pub pitch : ℕ
  pub pixel_stride : ℕ
  pub fb_size : ℕ
  pub secondary_physical : ℕ
  pub framebuffer_controller_proc : ℕ
  pub front : ℕ → ℕ
  pub back : ℕ → ℕ

abbrev pub kernel_controls_framebuffer : VideoManager → Bool
kernel_controls_framebuffer vm = vm.framebuffer_controller_proc == 0

unfoldable pub acquire_framebuffer : VideoManager → ℕ → VideoManager
acquire_framebuffer vm pid = record vm { framebuffer_controller_proc = pid }

-- A 32-bit word in memory, its lowest byte first.
abbrev pub write_word : (ℕ → ℕ) → ℕ → ℕ → ℕ → ℕ
write_word f a v =
    update
      (update (update (update f a (v % 256)) (a + 1) (v / 256 % 256)) (a + 2) (v / 65536 % 256))
      (a + 3) (v / 16777216 % 256)

abbrev pub read_word : (ℕ → ℕ) → ℕ → ℕ
read_word f a = f a + 256 * f (a + 1) + 65536 * f (a + 2) + 16777216 * f (a + 3)

-- The offset of a pixel.
abbrev pub pixel_offset : VideoManager → ℕ → ℕ → ℕ
pixel_offset vm x y = (y * vm.pitch + x * vm.pixel_stride) % word

unfoldable pub set_pixel : VideoManager → ℕ → ℕ → ℕ → VideoManager
set_pixel vm x y px = record vm { back = write_word vm.back (pixel_offset vm x y) px }

unfoldable pub get_pixel : VideoManager → ℕ → ℕ → ℕ
get_pixel vm x y = read_word vm.back (pixel_offset vm x y)

-- fast_copy of `n` bytes between the two buffers, at the same offset in both; addresses wrap round. (It
-- copies words of four bytes first, which is the same for two buffers.)
unfoldable pub copy_bytes : (ℕ → ℕ) → (ℕ → ℕ) → ℕ → ℕ → ℕ → ℕ
copy_bytes dst src zero i = dst
copy_bytes dst src (suc n) i = copy_bytes (update dst i (src i)) src n (add32 i 1)

-- The loop of FlushBlock over the `h` rows left.
unfoldable pub flush_rows : (ℕ → ℕ) → (ℕ → ℕ) → ℕ → ℕ → ℕ → ℕ → ℕ → ℕ
unfolding copy_bytes
flush_rows front back w pitch zero offset = front
flush_rows front back w pitch (suc h) offset =
    flush_rows (copy_bytes front back w offset) back w pitch h (add32 offset pitch)

unfoldable pub flush_block : VideoManager → ℕ → ℕ → ℕ → ℕ → VideoManager
unfolding flush_rows
flush_block vm x y w h = record vm {
  front =
      flush_rows vm.front vm.back (w * vm.pixel_stride % word) vm.pitch h
        ((y * vm.pitch + x * vm.pixel_stride) % word);
}

unfoldable pub flush_buffer : VideoManager → VideoManager
unfolding flush_block
flush_buffer vm = flush_block vm 0 0 vm.xres vm.yres
