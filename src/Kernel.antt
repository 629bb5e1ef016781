-- ===== src/Kernel.antt =====
-- src/kernel: tasks and the scheduler.
pub mod Task
pub mod Memory
pub mod Timer
pub mod Syscall
mod Tests
