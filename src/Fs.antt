-- ===== src/Fs.antt =====
-- src/fs: the in-memory file system and its stored form.
pub mod Name
pub mod Tree
pub mod RamFs
pub mod Codec
pub mod Boot
pub mod Fat
mod Tests
