-- ===== src/Sakura.antt =====
-- userland/sakura: the window system's mouse and its list of windows.
pub mod Mouse
pub mod Windows
