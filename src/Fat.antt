-- ===== src/Fat.antt =====
-- fs/fat.c, the FAT16 file system.
pub mod Outcome
pub mod Volume
pub mod Name
pub mod Entry
pub mod Table
pub mod Dir
pub mod Path
pub mod Read
pub mod Create
pub mod Write
pub mod Patch
pub mod Append
