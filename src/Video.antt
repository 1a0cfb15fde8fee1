-- ===== src/Video.antt =====
-- kernel/video: the text terminal, the framebuffer and the terminal on it.
pub mod TextTty
pub mod Framebuffer
pub mod GraphicsTty
