-- ===== src/Files.antt =====
-- The file systems.
pub mod Vfs
pub mod Fat16
pub mod Directory
pub mod Mbr
