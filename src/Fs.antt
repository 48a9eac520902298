-- ===== src/Fs.antt =====
-- The file system of the interfaces, entradasalida/src/utils_io.c: its blocks, its files and their sizes.
pub mod Blocks
pub mod Bitwise
pub mod Contents
pub mod Files
pub mod Truncate
pub mod Owned
pub mod Kept
pub mod Relocate
pub mod FirstFree
pub mod Tests
pub mod Life
pub mod Directory
pub mod Names
pub mod Sized
pub mod Refined
