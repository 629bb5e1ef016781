-- ===== src/Drivers/Keyboard.antt =====
-- src/drivers/keyboard.rs: the scancode buffer and the choice of the layout.
pub mod Buffer
pub mod Layout
pub mod Decode
