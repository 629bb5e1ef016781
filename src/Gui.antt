-- ===== src/Gui.antt =====
-- src/gui: events, their queue, and the windows that they go to.
pub mod Event
pub mod Framebuffer
pub mod Draw
pub mod Widget
pub mod Compositor
pub mod Session
mod Tests
