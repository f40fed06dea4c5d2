-- ===== src/Fs.antt =====
-- kernel/src/fs.c: the file system on the block cache, as it is built without EASY_FS.
pub mod State
pub mod Blocks
pub mod Inodes
pub mod Paths
mod Tests
