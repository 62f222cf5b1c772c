-- ===== src/Fat16.antt =====
-- src/kernel/fs/fat/fat16.c and fat16.h: the FAT16 driver. An allocation is taken to return a fresh
-- block of zero bytes (Heap.Kernel). What is given back or lost is not kept, but for the directory
-- that `fat16_load_fat_directory` frees and returns.
pub mod Layout
pub mod Clusters
pub mod Names
pub mod Directory
pub mod Driver
pub mod Reading
pub mod Count
pub mod Defects
mod Tests
