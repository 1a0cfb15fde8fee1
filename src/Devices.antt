-- ===== src/Devices.antt =====
-- The drivers of kernel/device.
pub mod Keyboard
pub mod Cmos
pub mod Mouse
