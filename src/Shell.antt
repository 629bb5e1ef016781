-- ===== src/Shell.antt =====
-- The shell's commands (src/shell).
pub mod Disk
pub mod History
pub mod Completion
pub mod Text
pub mod Line
pub mod Unicode
pub mod Files
pub mod Inspect
pub mod Commands
pub mod Pipeline
pub mod Editor
pub mod Env
