-- ===== src/Fs.antt =====
-- kernel/fs.c and fs.h: the FAT16 file system.
pub mod Fat
pub mod Chain
pub mod Names
pub mod Dir
pub mod State
pub mod Format
pub mod Files
pub mod Dirs
pub mod Chdir
pub mod Listing
