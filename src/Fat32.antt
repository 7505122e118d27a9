-- ===== src/Fat32.antt =====
-- The FAT32 driver of src/fat32.c: its disk, directory entries, allocation table and operations.
pub mod Disk
pub mod Layout
pub mod Driver
pub mod Directory
pub mod Files
pub mod Format
