-- ===== src/Fs.antt =====
-- src/kernel/fs: files.
pub mod Path
pub mod Ramfs
pub mod Vfs
pub mod Tar
pub mod Descriptors
