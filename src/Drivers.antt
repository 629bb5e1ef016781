-- ===== src/Drivers.antt =====
-- src/drivers.
pub mod Keyboard
pub mod Vga
pub mod Mouse
mod Tests
