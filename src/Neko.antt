-- ===== src/Neko.antt =====
-- libneko: the containers of libneko/include/nk.
pub mod Vector
pub mod Text
pub mod FilePath
pub mod IniFile
pub mod CircularQueue
